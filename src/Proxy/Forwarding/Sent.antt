-- ===== src/Proxy/Forwarding/Sent.antt =====
-- What an upstream and a client are told.
use zaphyl.Prelude.{
  ◌≡◌, refl, Bool, true, false, Option, some, List, [], ◌∷◌, ◌++◌, arith, if◌then◌else◌,
}
use zaphyl.Str.{Str, lit, str_eq}
use zaphyl.Str.Laws.{str_eq_iff}
use zaphyl.Proxy.{HeaderMap, RequestCtx}
use zaphyl.Proxy.Forwarding.{Http, RequestHeader, without, upstream_request_filter}

pub all_values : Str → HeaderMap → List (Option Str)
all_values name [] = []
all_values name (h ∷ headers) =
    let rest = all_values name headers in if str_eq h.0 name then h.1 ∷ rest else rest

values-append :
    (name : Str) (xs ys : HeaderMap)
    → all_values name (xs ++ ys) ≡ all_values name xs ++ all_values name ys
unfolding all_values
values-append name [] ys = refl
values-append name (h ∷ xs) ys = ground (arith, values-append name xs ys)

values-without : (name : Str) (hs : HeaderMap) → all_values name (without name hs) ≡ []
unfolding all_values without
values-without name [] = refl
values-without name (h ∷ hs) = ground (arith, values-without name hs)

value_alone : (name : Str) (v : Option Str) → all_values name ((name, v) ∷ []) ≡ v ∷ []
unfolding all_values
value_alone name v = ground (arith, str_eq_iff name name)

-- The upstream is told the protocol of the client's connection by this proxy alone: whatever headers
-- the client sent and the route sets, the request carries the header once, as `https` exactly if TLS
-- is on. The crate `http` parses this header to itself.
pub upstream_request_filter-proto :
    (http : Http) (tls_enabled : Bool) (client_ip : Option Str) (ctx : RequestCtx)
    (request : RequestHeader)
    → (http.parse_header (lit "x-forwarded-proto") (lit "https")
        ≡ some (lit "x-forwarded-proto", some (lit "https")))
    → (http.parse_header (lit "x-forwarded-proto") (lit "http")
        ≡ some (lit "x-forwarded-proto", some (lit "http")))
    → all_values
        (lit "x-forwarded-proto")
        (upstream_request_filter http tls_enabled client_ip ctx request).headers
      ≡ some (if tls_enabled then lit "https" else lit "http") ∷ []
unfolding upstream_request_filter
upstream_request_filter-proto http true client_ip ctx request secure plain =
    rw (secure, values-append, values-without)
      (value_alone (lit "x-forwarded-proto") (some (lit "https")))
upstream_request_filter-proto http false client_ip ctx request secure plain =
    rw (plain, values-append, values-without)
      (value_alone (lit "x-forwarded-proto") (some (lit "http")))
