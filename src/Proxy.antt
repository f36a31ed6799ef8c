-- ===== src/Proxy.antt =====
-- crates/zaphyl/src/main.rs: the state of a request, and what the proxy keeps for all of them. The
-- phases that Pingora calls are in the children. A header is a name in lower case, as the crate `http`
-- keeps it, with its value where `to_str` gives one.
pub mod Storing
pub mod Body
pub mod Building
pub mod Guards
pub mod Forwarding
pub mod Failing
pub mod Logging
pub mod Filter
use zaphyl.Prelude.{
  ℕ, zero, suc, ◌+◌, ◌*◌, ◌≤◌, ◌<◌, Bool, true, false, not, ◌&&◌, Option, none, some, List, [], ◌∷◌,
  map, any, find, and_then, option_map, is_some, if◌then◌else◌,
}
use zaphyl.Str.{Str, lit, str_eq, to_ascii_lowercase, eq_ignore_ascii_case}
use zaphyl.HashMap.{HashMap}
use zaphyl.Cache.Policy.{response_ttl}
use zaphyl.Cache.Store.{CachedResponse, header_named}

abbrev pub HeaderMap : Type 0
HeaderMap = List (Str × Option Str)

-- `headers.get(name).and_then(|value| value.to_str().ok())`: the first header of the name.
abbrev pub header_text : Str → HeaderMap → Option Str
header_text name headers = and_then (find (λ h. str_eq h.0 name) headers) (λ h. h.1)

abbrev pub has_header : Str → HeaderMap → Bool
has_header name headers = any (λ h. str_eq h.0 name) headers

pub record ResponseHeader : Type 0 where
  pub status : ℕ
  pub headers : HeaderMap

-- Durations are seconds, points in time milliseconds.
pub record RequestCtx : Type 0 where
  pub start : ℕ
  pub rewrite_path : Option Str
  pub body_seen : ℕ
  pub req_headers : List (Str × Str)
  pub resp_headers : List (Str × Str)
  pub cache_key : Option Str
  pub cache_ttl : Option ℕ
  pub cache_status : ℕ
  pub cache_headers : List (Str × Str)
  pub cache_body : List ℕ
  pub cache_overflow : Bool

unfoldable pub new_ctx : ℕ → RequestCtx
new_ctx now = record {
  start = now;
  rewrite_path = none;
  body_seen = 0;
  req_headers = [];
  resp_headers = [];
  cache_key = none;
  cache_ttl = none;
  cache_status = 0;
  cache_headers = [];
  cache_body = [];
  cache_overflow = false;
}

pub is_uncacheable_header : Str → Bool
is_uncacheable_header name = any (str_eq (to_ascii_lowercase name)) (
    lit "connection"
    ∷ lit "keep-alive"
    ∷ lit "proxy-connection"
    ∷ lit "transfer-encoding"
    ∷ lit "upgrade"
    ∷ lit "content-length"
    ∷ [])

-- The lifetime of a stored response, from its own headers, when it has been revalidated.
unfoldable pub stored_ttl : CachedResponse → Option ℕ
stored_ttl response =
    response_ttl 200 (header_named (lit "cache-control") response.headers) false
      (header_named (lit "vary") response.headers)

-- The pairs of a map, in the order of its iteration.
abbrev pub header_pairs : HashMap Str → List (Str × Str)
header_pairs headers = headers
