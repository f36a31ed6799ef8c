-- ===== src/Proxy/Forwarding.antt =====
-- crates/zaphyl/src/main.rs, `upstream_peer`, `upstream_request_filter`, `response_filter` and
-- `fail_to_proxy`: where a request goes, what is sent along, and what is added to the answer. Parsing a
-- header or a URI is the work of the crate `http`.
use zaphyl.Prelude.{
  ℕ, ◌+◌, Bool, true, false, not, Option, none, some, List, [], ◌∷◌, ◌++◌, ltb, option_map,
  and_then, if◌then◌else◌, Result, ok, err,
}
use zaphyl.Str.{Str, lit, str_eq, before}
use zaphyl.Router.{Memory, Target, Route, Router, match_route, next_target, rewrite_path}
use zaphyl.Proxy.{HeaderMap, header_text, RequestCtx}
pub mod Sent

pub record Http : Type 0 where
  -- A header's name in lower case, and its value where it is visible ASCII.
  pub parse_header : Str → Str → Option (Str × Option Str)
  -- The path and the query of a URI.
  pub parse_uri : Str → Option (Str × Option Str)

unfoldable pub without : Str → HeaderMap → HeaderMap
without name [] = []
without name (h ∷ headers) =
    let rest = without name headers in if str_eq h.0 name then rest else h ∷ rest

abbrev pub replace_parsed : Option (Str × Option Str) → HeaderMap → HeaderMap
replace_parsed none headers = headers
replace_parsed (some h) headers = without h.0 headers ++ h ∷ []

abbrev pub append_parsed : Option (Str × Option Str) → HeaderMap → HeaderMap
append_parsed none headers = headers
append_parsed (some h) headers = headers ++ h ∷ []

pub record RequestHeader : Type 0 where
  pub method : Str
  pub path : Str
  pub query : Option Str
  pub headers : HeaderMap

pub record HttpPeer : Type 0 where
  pub address : Str
  pub tls : Bool
  pub sni : Str
  pub connection_timeout : Option ℕ
  pub read_timeout : Option ℕ
  pub alpn_h2 : Bool

abbrev pub host_of : HeaderMap → Option Str
host_of headers = option_map (before b':') (header_text (lit "host") headers)

abbrev pub peer_of : Option ℕ → Option ℕ → Target → HttpPeer
peer_of connect_timeout read_timeout t = record {
  address = t.address;
  tls = t.tls;
  sni = t.sni;
  connection_timeout = connect_timeout;
  read_timeout = read_timeout;
  alpn_h2 = t.h2;
}

abbrev pub no_route : Str
no_route = lit "no matching route"

-- With the route at hand, its target of this turn.
pub route_peer :
    Option ℕ
    → Option ℕ
    → Str
    → RequestCtx
    → Route
    → Option Target × Memory
    → Result Str HttpPeer × (RequestCtx × Memory)
route_peer connect_timeout read_timeout path ctx route (none, m) = (err no_route, (ctx, m))
route_peer connect_timeout read_timeout path ctx route (some t, m) = (
  ok (peer_of connect_timeout read_timeout t),
  (
    record ctx {
      rewrite_path = rewrite_path route path;
      req_headers = route.request_headers;
      resp_headers = route.response_headers;
    },
    m,
  ),
)

abbrev pub peer_for :
    Option ℕ
    → Option ℕ
    → Str
    → RequestCtx
    → Memory
    → Option Route
    → Result Str HttpPeer × (RequestCtx × Memory)
peer_for connect_timeout read_timeout path ctx m none = (err no_route, (ctx, m))
peer_for connect_timeout read_timeout path ctx m (some route) =
    route_peer connect_timeout read_timeout path ctx route (next_target route m)

pub upstream_peer :
    Router
    → Option ℕ
    → Option ℕ
    → RequestHeader
    → RequestCtx
    → Memory
    → Result Str HttpPeer × (RequestCtx × Memory)
unfolding route_peer
upstream_peer router connect_timeout read_timeout request ctx m =
    peer_for connect_timeout read_timeout request.path ctx m
      (match_route router (host_of request.headers) request.path)

module _ (http : Http) where
  abbrev pub insert_header : Str → Str → HeaderMap → HeaderMap
  insert_header name value headers = replace_parsed (http.parse_header name value) headers

  abbrev pub append_header : Str → Str → HeaderMap → HeaderMap
  append_header name value headers = append_parsed (http.parse_header name value) headers

  unfoldable pub insert_headers : List (Str × Str) → HeaderMap → HeaderMap
  unfolding without
  insert_headers [] headers = headers
  insert_headers ((name, value) ∷ pairs) headers =
      insert_headers pairs (insert_header name value headers)

  abbrev pub insert_if_some : Str → Option Str → HeaderMap → HeaderMap
  insert_if_some name none headers = headers
  insert_if_some name (some value) headers = insert_header name value headers

  pub response_filter : List (Str × Str) → Option Str → RequestCtx → HeaderMap → HeaderMap
  unfolding insert_headers
  response_filter response_headers alt_svc ctx headers =
      insert_if_some (lit "alt-svc") alt_svc
        (insert_headers ctx.resp_headers (insert_headers response_headers headers))

  abbrev pub with_query : Str → Option Str → Str
  with_query path none = path
  with_query path (some query) = path ++ (lit "?" ++ query)

  abbrev pub set_parsed : Option (Str × Option Str) → RequestHeader → RequestHeader
  set_parsed none request = request
  set_parsed (some uri) request = record request { path = uri.0; query = uri.1 }

  abbrev pub rewritten : Option Str → RequestHeader → RequestHeader
  rewritten none request = request
  rewritten (some new_path) request =
      set_parsed (http.parse_uri (with_query new_path request.query)) request

  abbrev pub append_if_some : Str → Option Str → HeaderMap → HeaderMap
  append_if_some name none headers = headers
  append_if_some name (some value) headers = append_header name value headers

  -- The client's address is known for internet sockets only.
  pub upstream_request_filter : Bool → Option Str → RequestCtx → RequestHeader → RequestHeader
  unfolding insert_headers
  upstream_request_filter tls_enabled client_ip ctx request =
      let request' = rewritten ctx.rewrite_path request in
      record request' {
        headers =
            insert_header (lit "x-forwarded-proto")
              (if tls_enabled then lit "https" else lit "http")
              (append_if_some (lit "x-forwarded-for") client_ip
                (insert_headers ctx.req_headers request'.headers));
      }
