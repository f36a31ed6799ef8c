-- ===== src/Http3/Upload.antt =====
-- crates/zaphyl/src/http3.rs, `proxy_request`: the request that goes to the upstream, and the task that
-- feeds its body. A receiver that is gone ends the task like the end of the body does. Where the proxy
-- ends an upload that is too large with an error, the task ends its body.
use zaphyl.Prelude.{
  ℕ, ◌+◌, ◌≤◌, ◌<◌, ◌%◌, ◌^◌, ◌≡◌, inl, inr, refl, ap, Bool, true, false, Option, none, some, List,
  [], ◌∷◌, ◌++◌, length, ltb, if◌then◌else◌, unwrap_or, Bool-cases, Result, ok, err, try,
}
use zaphyl.Str.{Str, lit}
use zaphyl.Router.{Target, Route, rewrite_path}
use zaphyl.Proxy.{RequestCtx, new_ctx, HeaderMap}
use zaphyl.Proxy.Body.{upload_lem, request_body_filter, upload, total}
use zaphyl.Proxy.Forwarding.{Http, RequestHeader, with_query, without}
use zaphyl.Upstream.{uri_of}

-- The chunks that are sent on; `seen` is a `u64`.
unfoldable pub forward_body : ℕ → ℕ → List (List ℕ) → List (List ℕ)
forward_body max seen [] = []
forward_body max seen (chunk ∷ chunks) =
    let count = (seen + length chunk) % 2 ^ 64 in
    let rest = forward_body max count chunks in if ltb max count then [] else chunk ∷ rest

unfoldable pub sent_body : Option ℕ → List (List ℕ) → List (List ℕ)
unfolding forward_body
sent_body none chunks = chunks
sent_body (some max) chunks = forward_body max 0 chunks

pub record Upstreamed : Type 0 where
  pub method : Str
  pub uri : Str
  pub headers : HeaderMap
  pub body : List (List ℕ)

module _ (http : Http) where
  -- `builder.header`: a header that cannot be read fails the request.
  abbrev pub add_parsed : Option (Str × Option Str) → HeaderMap → Result Str HeaderMap
  add_parsed none headers = err (lit "header")
  add_parsed (some h) headers = ok (headers ++ h ∷ [])

  unfoldable pub add_headers : List (Str × Str) → HeaderMap → Result Str HeaderMap
  add_headers [] headers = ok headers
  add_headers ((name, value) ∷ pairs) headers =
      try (add_parsed (http.parse_header name value) headers) (add_headers pairs)

  abbrev pub early_header : Bool → HeaderMap → HeaderMap
  early_header true headers = headers ++ (lit "early-data", some (lit "1")) ∷ []
  early_header false headers = headers

  abbrev pub forward_path : Route → RequestHeader → Str
  forward_path route request =
      with_query http (unwrap_or (rewrite_path route request.path) request.path) request.query

  unfoldable pub upstream_request :
      (Str → Bool)
      → Option ℕ
      → Bool
      → Route
      → Target
      → RequestHeader
      → List (List ℕ)
      → Result Str Upstreamed
  unfolding add_headers sent_body
  upstream_request valid_uri max_body is_early route target request chunks =
      let uri = uri_of target (forward_path route request) in
      if valid_uri uri
      then try (add_headers route.request_headers (without (lit "host") request.headers))
          (λ headers. ok (record {
            method = request.method;
            uri = uri;
            headers = early_header is_early headers;
            body = sent_body max_body chunks;
          }))
      else err (lit "uri")

forward_body-upload :
    (max : ℕ) (chunks : List (List ℕ)) (ctx : RequestCtx)
    → forward_body max ctx.body_seen chunks ≡ (upload (some max) chunks ctx).0
unfolding forward_body upload request_body_filter
forward_body-upload max [] ctx = refl
forward_body-upload max (chunk ∷ chunks) ctx =
    let count = (ctx.body_seen + length chunk) % 2 ^ 64 in
    elim (Bool-cases (ltb max count)) [
      | inl e ↦ rw e refl
      | inr e ↦ rw e (
          ap (λ (l : List (List ℕ)). chunk ∷ l)
            (forward_body-upload max chunks (record ctx { body_seen = count })))
    ]

-- Of an upload whose bytes fit the 64-bit counter, the HTTP/3 front sends on the very chunks that the
-- proxy lets pass, and no more bytes than the limit.
pub sent_body-upload :
    (max now : ℕ) (chunks : List (List ℕ))
    → total chunks < 2 ^ 64
    → (sent_body (some max) chunks ≡ (upload (some max) chunks (new_ctx now)).0)
      × (total (sent_body (some max) chunks) ≤ max)
unfolding sent_body new_ctx
sent_body-upload max now chunks fits =
    let same = forward_body-upload max chunks (new_ctx now) in
    (same, rw same (upload_lem max now chunks fits).0)
