-- ===== src/Examples/Repeats.antt =====
-- Two requests for one response, over either listener; and a connection with early data.
use zaphyl.Prelude.{◌∷◌, ◌≡◌, refl, false, none, some, [], arith, ok, All}
use zaphyl.Str.{Str, lit}
use zaphyl.Proxy.Storing.Whole.{exchange}
use zaphyl.Proxy.Filter.{Filtered}
use zaphyl.Proxy.Filter.Caching.{Asked, CachePhase, cache_phase_of}
use zaphyl.Proxy.Filter.Repeated.{stored_of, ctx_with}
use zaphyl.Cache.Store
use zaphyl.Cache.Key
use zaphyl.Cache.Store.{ResponseCache, Entry, put}
use zaphyl.Cache.Store.Others.{at_once, stored}
use zaphyl.Http3.Serving.{serve_hit}
use zaphyl.Http3.Request.{World, Arrival, answer, proxy_request}
use zaphyl.Http3.Request.Shared.{exchange-crosses}
use zaphyl.Http3.Connection.{Message, Connection, serve, start, later, serves}
use zaphyl.Http3.Connection.Replay.{IsReplaySafe, Reach-IsReplaySafe}
use zaphyl.Examples.Plugins.{http}
use zaphyl.Examples.Requests.{
  outside, front, memory, router, confirming, chunks, cacheable, is_status,
}

abbrev empty : CachePhase (Unit {0})
empty = record { cache_key = none; memory = memory; cache = (Store.new 2, tt) }

abbrev page_asked : Asked
page_asked = record {
  key = Key.key (lit "h") (lit "/a") none;
  if_none_match = none;
  host = lit "h";
  path_and_query = lit "/a";
}

abbrev once : Filtered × CachePhase (Unit {0})
once =
    cache_phase_of http is_status confirming none none 10 router (some page_asked) 5000 6000 empty

abbrev filled : ResponseCache × Unit {0}
filled = (exchange none 10 cacheable chunks 7000 (ctx_with 0 once.1.cache_key, once.1.cache)).1

-- Another response is stored meanwhile.
abbrev another : Entry
another = (90000, record { status = 200; headers = []; body = 4 ∷ [] })

abbrev fuller : ResponseCache × Unit {0}
fuller = put none (lit "another") another filled

abbrev behind : CachePhase (Unit {0})
behind = record { cache_key = none; memory = memory; cache = fuller }

abbrev arrived : Arrival outside
arrived = record {
  request = record { method = lit "GET"; path = lit "/a"; query = none; headers = [] };
  host = some (lit "h");
  client_ip = 7;
  is_early = false;
  chunks = [];
  now = 8000;
}

abbrev shared : World (Unit {0})
shared = record { memory = memory; cache = some fuller }

exchange-crosses_example :
    ((proxy_request outside (Unit {0}) front arrived shared).0
      ≡ ok (answer (serve_hit http is_status (stored_of cacheable chunks) none)))
    × ((proxy_request outside (Unit {0}) front arrived shared).1.memory ≡ memory)
unfolding Store.lookup zaphyl.HashMap.get zaphyl.Cache.Policy.response_ttl cache_phase_of Store.new
    zaphyl.Str.str_eq zaphyl.Str.split zaphyl.Str.trim zaphyl.Str.before zaphyl.Str.strip_prefix
    zaphyl.Str.parse_uint zaphyl.Cache.Policy.request_cacheable zaphyl.Router.match_route
    zaphyl.Router.matches zaphyl.Access.allows Store.in_range Key.key
    zaphyl.Cache.Store.Others.evicts exchange zaphyl.Proxy.Storing.upstream_response_body_filter
    zaphyl.Proxy.Storing.upstream_response_filter zaphyl.Proxy.new_ctx put zaphyl.HashMap.insert
exchange-crosses_example =
    exchange-crosses outside (Unit {0}) front arrived page_asked page_asked cacheable chunks router
      none 10 5000 6000 0 7000 60 empty shared fuller refl refl (omega arith) refl refl
      (stored (lit "another") another at_once refl refl) refl refl (omega arith) refl refl refl refl

abbrev posted : Message outside
posted = record {
  request = record { method = lit "POST"; path = lit "/a"; query = none; headers = [] };
  host = some (lit "h");
  chunks = [];
  now = 5000;
}

abbrev unserved : Connection outside (Unit {0})
unserved = record { handshake_done = false; world = shared; log = [] }

Reach-IsReplaySafe_example :
    All
      (IsReplaySafe outside (Unit {0}) front 7 false)
      (serve outside (Unit {0}) front 7 posted unserved).log
unfolding serve
Reach-IsReplaySafe_example =
    Reach-IsReplaySafe outside (Unit {0}) front 7 false shared
      (serve outside (Unit {0}) front 7 posted unserved) (later start (serves posted))
