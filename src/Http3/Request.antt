-- ===== src/Http3/Request.antt =====
-- crates/zaphyl/src/http3.rs, `proxy_request`: from the request to the answer that the front gives
-- itself, or to the request that it sends to the upstream; and the head that it relays.
pub mod Early
pub mod Shared
use zaphyl.Prelude.{
  ℕ, Bool, true, false, not, ◌&&◌, Option, none, some, List, [], ◌∷◌, ◌++◌, ltb, length,
  if◌then◌else◌, is_some_and, is_some, unwrap_or, and_then, Result, ok, err, try,
}
use zaphyl.Str.{Str, lit}
use zaphyl.Access.{AccessControl, has_no_rules, allows}
use zaphyl.Router.{Memory, Target, Route, Router, match_route, next_target}
use zaphyl.Cache.Key
use zaphyl.Cache.Policy.{request_cacheable}
use zaphyl.Cache.Store.{CachedResponse, ResponseCache, DiskTier}
use zaphyl.Plugin
use zaphyl.Upstream.{Client}
use zaphyl.Proxy.{HeaderMap, header_text, has_header, ResponseHeader}
use zaphyl.Proxy.Guards.{content_length, too_long}
use zaphyl.Proxy.Forwarding.{RequestHeader, Http, with_query, without, insert_headers}
use zaphyl.Proxy.Filter.Plugins.{text_headers, read_body}
use zaphyl.Proxy.Filter.Caching.{Asked}
use zaphyl.Proxy.Filter.Phase.{Outside}
use zaphyl.Http3.{Encoding, is_safe_method, header_value, negotiate_encoding}
use zaphyl.Http3.Serving.{bare, response_head, serve_hit, serve_dir}
use zaphyl.Http3.Cached.{Looked, look_up}
use zaphyl.Http3.Upload.{Upstreamed, upstream_request}

-- An answer of the front; or the request for the upstream, its route, and the key under which its
-- answer may be stored.
pub data Outcome : Type 0 where
  answer : ResponseHeader × List ℕ → Outcome
  forward : Upstreamed → Route → Option Str → Outcome

pub record World (D : Type 0) : Type 0 where
  pub memory : Memory
  pub cache : Option (ResponseCache × D)

module _ (o : Outside) where
  -- A request: the host of its URI, and whether it came before the handshake was done.
  pub record Arrival : Type 0 where
    pub request : RequestHeader
    pub host : Option Str
    pub client_ip : o.ip.IpAddr
    pub is_early : Bool
    pub chunks : List (List ℕ)
    pub now : ℕ

  -- The request as it is looked up, if it may be.
  abbrev pub asked_of : Arrival → Option Asked
  asked_of a =
      let host = unwrap_or a.host [] in
      let path_and_query = with_query o.http a.request.path a.request.query in
      if request_cacheable a.request.method (header_text (lit "cache-control") a.request.headers)
        (has_header (lit "authorization") a.request.headers)
      then some (record {
        key = Key.key host path_and_query (header_text (lit "accept-encoding") a.request.headers);
        if_none_match = header_text (lit "if-none-match") a.request.headers;
        host = host;
        path_and_query = path_and_query;
      })
      else none

  module _ (D : Type 0) where
    pub record Front : Type 0 where
      pub router : Router
      pub access : AccessControl (o.ip)
      pub max_body_bytes : Option ℕ
      pub valid_uri : Str → Bool
      pub plugins : Option (Plugin.Plugins (o.wasm))
      pub disk : Option (DiskTier D)
      pub reval_client : Option Client
      pub reval_timeout : Option ℕ
      pub cache_max_body : ℕ

    abbrev pub Handled : Type 0
    Handled = Result Str Outcome × World D

    abbrev pub answered : ℕ → World D → Handled
    answered status w = (ok (answer (bare status)), w)

    -- The length is checked after the target has had its turn.
    abbrev pub send_to :
        Front → Arrival → World D → Option Str → Route → Option Target × Memory → Handled
    send_to f a w cache_key route (none, m) = answered 404 (record w { memory = m })
    send_to f a w cache_key route (some target, m) =
        if too_long f.max_body_bytes (content_length a.request.headers)
        then answered 413 (record w { memory = m })
        else (
          try
              (upstream_request o.http f.valid_uri f.max_body_bytes a.is_early route target
                a.request a.chunks)
              (λ request. ok (forward request route cache_key)),
          record w { memory = m },
        )

    unfoldable pub send_on : Front → Arrival → World D → Option Str → Option Route → Handled
    send_on f a w cache_key none = answered 404 w
    send_on f a w cache_key (some route) =
        send_to f a w cache_key route (next_target route w.memory)

    abbrev pub after_lookup : Front → Arrival → World D → Option Route → Looked D → Handled
    after_lookup f a w route ((some hit, cache_key), (m, cache)) = (
      ok (
          answer (
            serve_hit o.http o.is_status hit
              (header_text (lit "if-none-match") a.request.headers))),
      record w { memory = m; cache = some cache },
    )
    after_lookup f a w route ((none, cache_key), (m, cache)) =
        send_on f a (record w { memory = m; cache = some cache }) cache_key route

    unfoldable pub serve_cached :
        Front → Arrival → World D → Option Route → Option (ResponseCache × D) → Handled
    unfolding send_on
    serve_cached f a w route none = send_on f a w none route
    serve_cached f a w route (some cache) = after_lookup f a w route (
        look_up f.disk f.reval_client f.reval_timeout f.cache_max_body route (asked_of a) a.now
          w.memory cache)

    -- The headers for the plugins.
    abbrev pub early_pairs : Bool → List (Str × Str)
    early_pairs true = (lit "early-data", lit "1") ∷ []
    early_pairs false = []

    abbrev pub plugin_request : Arrival → Route → List ℕ → Plugin.Request
    plugin_request a route body = record {
      method = a.request.method;
      path = with_query o.http a.request.path a.request.query;
      headers = text_headers a.request.headers ++ (route.request_headers ++ early_pairs a.is_early);
      body = body;
      client_ip = o.show_ip a.client_ip;
    }

    abbrev pub plugin_answer : Route → Result Str Plugin.Response → ResponseHeader × List ℕ
    plugin_answer route (err e) = bare 502
    plugin_answer route (ok r) = (
      response_head o.http o.is_status r.status (r.headers ++ route.response_headers)
          (some (length r.body)),
      r.body,
    )

    -- An upload that breaks off counts as whole.
    abbrev pub run_body :
        Arrival
        → Route
        → Plugin.Plugins (o.wasm)
        → Plugin.PluginChain (o.wasm)
        → Target
        → Result Str (Option (List ℕ))
        → ResponseHeader × List ℕ
    run_body a route plugins chain target (err e) = bare 413
    run_body a route plugins chain target (ok none) = bare 413
    run_body a route plugins chain target (ok (some body)) = plugin_answer route (
        Plugin.run o.wasm o.client plugins chain (plugin_request a route body) (unwrap_or a.host [])
          target)

    abbrev pub run_chain :
        Arrival
        → World D
        → Route
        → Plugin.Plugins (o.wasm)
        → Plugin.PluginChain (o.wasm)
        → Option Target × Memory
        → Handled
    run_chain a w route plugins chain (none, m) = answered 404 (record w { memory = m })
    run_chain a w route plugins chain (some target, m) = (
      ok (
          answer
            (run_body a route plugins chain target (read_body plugins.max_body [] a.chunks none))),
      record w { memory = m },
    )

    abbrev pub with_chain :
        Front
        → Arrival
        → World D
        → Route
        → Plugin.Plugins (o.wasm)
        → Option (Plugin.PluginChain (o.wasm))
        → Handled
    with_chain f a w route plugins none = serve_cached f a w (some route) w.cache
    with_chain f a w route plugins (some chain) =
        if is_some_and (content_length a.request.headers) (λ len. ltb plugins.max_body len)
        then serve_cached f a w (some route) w.cache
        else run_chain a w route plugins chain (next_target route w.memory)

    unfoldable pub run_plugins :
        Front → Arrival → World D → Option Route → Option (Plugin.Plugins (o.wasm)) → Handled
    unfolding serve_cached
    run_plugins f a w route none = serve_cached f a w route w.cache
    run_plugins f a w none (some plugins) = serve_cached f a w none w.cache
    run_plugins f a w (some route) (some plugins) =
        with_chain f a w route plugins (Plugin.chain o.wasm plugins route.id)

    abbrev pub serve_route : Front → Arrival → World D → Route → Option Str → Handled
    serve_route f a w route none = run_plugins f a w (some route) f.plugins
    serve_route f a w route (some dir) =
        (ok (answer (serve_dir o.fs o.path_of o.mime route a.request.path dir)), w)

    abbrev pub routed : Front → Arrival → World D → Option Route → Handled
    routed f a w none = run_plugins f a w none f.plugins
    routed f a w (some route) = serve_route f a w route route.static_dir

    unfoldable pub proxy_request : Front → Arrival → World D → Handled
    unfolding run_plugins
    proxy_request f a w =
        if not (has_no_rules o.ip f.access) && not (allows o.ip f.access a.client_ip)
        then answered 403 w
        else if a.is_early && not (is_safe_method a.request.method)
        then answered 425 w
        else routed f a w (match_route f.router a.host a.request.path)

-- The head that is relayed, as it is before it is encoded: what is stored is read from it.
unfoldable pub relayed : Http → Route → ResponseHeader → ResponseHeader
relayed http route r = record r {
  headers = insert_headers http route.response_headers (
      without (lit "upgrade")
        (without (lit "transfer-encoding") (without (lit "connection") r.headers)));
}

-- A response is encoded when compression is on, and the upstream has not encoded it.
unfoldable pub encoding_for : (Str → Bool) → Option ℕ → HeaderMap → ResponseHeader → Option Encoding
encoding_for is_zero_float level request r =
    if is_some level && not (has_header (lit "content-encoding") r.headers)
    then negotiate_encoding is_zero_float request
    else none

unfoldable pub encoded_head : Option Encoding → ResponseHeader → ResponseHeader
encoded_head none r = r
encoded_head (some e) r = record r {
  headers = without (lit "content-length") (
      without (lit "content-encoding") r.headers
      ++ (lit "content-encoding", some (header_value e)) ∷ []);
}
