-- ===== src/Examples/Requests.antt =====
-- Requests to a proxy, and over HTTP/3: for a file, with credentials, and for a stale entry.
use zaphyl.Prelude.{
  length, ◌*◌, ◌+◌, ℕ, ◌≡◌, ◌≤◌, refl, true, false, ◌&&◌, Bool, none, some, List, [], ◌∷◌, arith,
  leb, ltb, if◌then◌else◌,
}
use zaphyl.Str.{Str, lit}
use zaphyl.Access.{IpLib, AccessControl, has_no_rules}
use zaphyl.Router.{Memory, Route, Router}
use zaphyl.Cache.Store
use zaphyl.Cache.Store.{in_range, put, CachedResponse, ResponseCache, fresh}
use zaphyl.Static.{FileSystem, PathBuf}
use zaphyl.Static.Under.{IsUnder, resolve-IsUnder}
use zaphyl.Upstream.{Client, answers}
use zaphyl.Proxy.{ResponseHeader, new_ctx}
use zaphyl.Proxy.Body.{upload, total}
use zaphyl.Proxy.Guards.{guards}
use zaphyl.Proxy.Forwarding.{RequestHeader}
use zaphyl.Proxy.Filter.{serve_cache_hit}
use zaphyl.Proxy.Filter.Caching.{Asked, CachePhase, cache_phase_of}
use zaphyl.Proxy.Filter.Phase
use zaphyl.Proxy.Filter.Phase.{Outside, Proxy, Session, request_filter}
use zaphyl.Proxy.Filter.Served.{sent, cache_phase-renews}
use zaphyl.Proxy.Filter.Direct.{
  SameCache, IsStatic, request_filter-SameCache, request_filter-passed,
}
use zaphyl.Http3.Serving.{shown, serve_hit, serve_hit-same}
use zaphyl.Http3.Upload.{sent_body, sent_body-upload}
use zaphyl.Http3.Request
use zaphyl.Http3.Relay.{relay}
use zaphyl.Http3.Relay.Kept.{relay-stores}
use zaphyl.Proxy.Storing.{storable}
use zaphyl.Proxy.Storing.Whole.{concat}
use zaphyl.Http3.Request.{relayed, Arrival, Front, answer, proxy_request}
use zaphyl.Examples.Plugins.{marking, origin, backend, http}

abbrev pub disk : FileSystem
disk = record {
  decode = λ path. some path;
  is_dir = λ path. false;
  is_file = λ path. true;
  canonicalize = λ path. some path;
  read = λ path. some (104 ∷ []);
}

resolve-IsUnder_example : IsUnder disk (lit "srv" ∷ []) (lit "/a") (lit "srv" ∷ lit "a" ∷ [])
unfolding zaphyl.Static.resolve zaphyl.Str.split zaphyl.Str.split_first zaphyl.Str.str_eq
resolve-IsUnder_example =
    resolve-IsUnder disk (lit "srv" ∷ []) (lit "/a") (lit "srv" ∷ lit "a" ∷ []) refl

abbrev pub is_status : ℕ → Bool
is_status n = leb 100 n && ltb n 1000

abbrev pub page : CachedResponse
page = record { status = 200; headers = (lit "etag", lit "t") ∷ []; body = 1 ∷ [] }

serve_hit-same_example :
    shown http is_status (serve_hit http is_status page (some (lit "t")))
    ≡ sent (serve_cache_hit http is_status page (some (lit "t")))
serve_hit-same_example = serve_hit-same http is_status page (some (lit "t")) refl refl

abbrev pub chunks : List (List ℕ)
chunks = (1 ∷ 2 ∷ []) ∷ (3 ∷ 4 ∷ []) ∷ []

sent_body-upload_example :
    (sent_body (some 3) chunks ≡ (upload (some 3) chunks (new_ctx 0)).0)
    × (total (sent_body (some 3) chunks) ≤ 3)
unfolding total
sent_body-upload_example = sent_body-upload 3 0 chunks (omega arith)

abbrev pub addresses : IpLib
addresses = record {
  IpAddr = ℕ;
  IpNet = Bool;
  parse_net = λ s. none;
  parse_ip = λ s. none;
  is_ipv4 = λ ip. true;
  net_new = λ ip prefix. none;
  net_contains = λ net ip. net;
}

abbrev pub confirming : Client
confirming = record { builds = λ request. true; send = λ timeout request. answers 304 [] none }

abbrev pub outside : Outside
outside = record {
  http = http;
  is_status = is_status;
  ip = addresses;
  show_ip = λ ip. ip ∷ [];
  fs = disk;
  path_of = λ dir. dir ∷ [];
  mime = λ path. lit "text/html";
  wasm = marking;
  client = origin;
  revalidation_client = confirming;
}

abbrev pub route : Route
route = record {
  host = none;
  path_prefix = none;
  targets = backend ∷ [];
  strip_prefix = false;
  request_headers = [];
  response_headers = [];
  static_dir = none;
  id = 0;
  next = 0;
}

abbrev pub router : Router
router = record { routes = route ∷ [] }

abbrev pub no_rules : AccessControl addresses
no_rules = record { allow = []; deny = [] }

abbrev pub proxy : Proxy outside (Unit {0})
proxy = record {
  router = router;
  access = no_rules;
  max_body_bytes = none;
  plugins = none;
  disk = none;
  read_timeout = none;
  cache_max_body = 10;
  compression_level = some 6;
}

abbrev with_credentials : RequestHeader
with_credentials = record {
  method = lit "GET";
  path = lit "/a";
  query = none;
  headers = (lit "authorization", some (lit "x")) ∷ [];
}

abbrev pub session : Session outside
session = record {
  request = with_credentials;
  client_ip = some 7;
  upload = record { chunks = []; breaks = none };
  elapsed = 0;
  now = 5000;
  later = 6000;
}

abbrev pub memory : Memory
memory = record { flags = λ cell. true; counters = λ cell. 0; free_flag = 1; free_counter = 1 }

abbrev pub cache : ResponseCache
cache = record { max_entries = 2; entries = (lit "key", (4000, page)) ∷ [] }

abbrev world : Phase.World (Unit {0})
world = record {
  limiter = none;
  cache_key = none;
  memory = memory;
  cache = some (cache, tt);
  compression = none;
}

request_filter-SameCache_example :
    SameCache world (request_filter outside (Unit {0}) proxy session world).1
unfolding zaphyl.Cache.Policy.request_cacheable zaphyl.Str.str_eq
request_filter-SameCache_example =
    request_filter-SameCache outside (Unit {0}) proxy session world refl

request_filter-passed_example :
    ((guards addresses (λ ip. ip ∷ []) no_rules none none (some 7) 0 with_credentials.headers).0
      ≡ none)
    × ((r : Route) (dir : Str) → ¬ (IsStatic outside (Unit {0}) proxy session r dir))
unfolding request_filter guards zaphyl.Proxy.Guards.denied has_no_rules zaphyl.Proxy.Guards.too_long
    zaphyl.Proxy.Filter.try_serve_static zaphyl.Router.match_route zaphyl.Router.matches
    zaphyl.Proxy.Filter.Plugins.try_run_plugins zaphyl.Proxy.Filter.Caching.cache_phase
    zaphyl.Proxy.Filter.Caching.lookup_request zaphyl.Cache.Policy.request_cacheable
    zaphyl.Str.str_eq
request_filter-passed_example = request_filter-passed outside (Unit {0}) proxy session world refl

abbrev pub asked : Asked
asked = record { key = lit "key"; if_none_match = none; host = lit "h"; path_and_query = lit "/a" }

abbrev pub phase : CachePhase (Unit {0})
phase = record { cache_key = none; memory = memory; cache = (cache, tt) }

cache_phase-renews_example :
    ((cache_phase_of http is_status confirming none none 10 router (some asked) 5000 6000 phase).0
      ≡ serve_cache_hit http is_status page none)
    × ((Store.lookup none
          (lit "key")
          60000
          (cache_phase_of http is_status confirming none none 10 router
            (some asked)
            5000
            6000
            phase).1.cache).0
        ≡ fresh page)
unfolding Store.lookup zaphyl.HashMap.get zaphyl.Str.str_eq Store.etag
    zaphyl.Str.eq_ignore_ascii_case zaphyl.Router.match_route zaphyl.Router.matches
    zaphyl.Router.next_target zaphyl.Upstream.revalidate zaphyl.Proxy.stored_ttl
    zaphyl.Cache.Policy.response_ttl
cache_phase-renews_example =
    cache_phase-renews http is_status confirming none none 10 router asked page 5000 6000 60000
      (lit "t") backend phase refl refl refl refl (omega arith)

abbrev pub front : Front outside (Unit {0})
front = record {
  router = router;
  access = no_rules;
  max_body_bytes = none;
  valid_uri = λ uri. true;
  plugins = none;
  disk = none;
  reval_client = none;
  reval_timeout = none;
  cache_max_body = 10;
}

abbrev pub early : Arrival outside
early = record {
  request = record { method = lit "POST"; path = lit "/a"; query = none; headers = [] };
  host = some (lit "h");
  client_ip = 7;
  is_early = true;
  chunks = [];
  now = 5000;
}

abbrev pub kept_by_front : Request.World (Unit {0})
kept_by_front = record { memory = memory; cache = none }

abbrev pub cacheable : ResponseHeader
cacheable = record { status = 200; headers = (lit "cache-control", some (lit "max-age=60")) ∷ [] }

relay-stores_example :
    (relay http
      (λ s. false)
      none
      (some 6)
      10
      (some (lit "key"))
      route
      []
      5000
      cacheable
      chunks
      (cache, tt)).1
    ≡ (if leb (length (concat chunks)) 10 && in_range 5000 60
        then put {D = Unit {0}} none
            (lit "key")
            (
              5000 + 1000 * 60,
              record {
                status = 200;
                headers = storable (relayed http route cacheable).headers;
                body = concat chunks;
              },
            )
            (cache, tt)
        else (cache, tt))
unfolding zaphyl.Cache.Policy.response_ttl relayed zaphyl.Proxy.Forwarding.insert_headers
    zaphyl.Proxy.Forwarding.without zaphyl.Str.str_eq zaphyl.Str.split zaphyl.Str.split_first
    zaphyl.Str.trim zaphyl.Str.strip_prefix zaphyl.Str.parse_uint zaphyl.Cache.Policy.max_age
    zaphyl.Cache.Policy.max_age_of zaphyl.Cache.Policy.positive zaphyl.Str.before
relay-stores_example =
    relay-stores http (λ s. false) none (some 6) 10 (lit "key") route [] 5000 60 cacheable chunks
      (cache, tt) refl
