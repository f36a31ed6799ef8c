-- ===== src/Proxy/Body.antt =====
-- crates/zaphyl/src/main.rs, `request_body_filter`: the limit on uploads of no declared length.
use zaphyl.Prelude.{
  ltb→lt, ltb-false→le, ℕ, ◌+◌, ◌%◌, ◌^◌, ◌≤◌, ◌<◌, ◌≡◌, ◌↔◌, Bool, true, false, Option, none, some,
  List, [], ◌∷◌, arith, ltb, length, if◌then◌else◌, Result, ok, err, Bool-cases, inl, inr,
}
use zaphyl.Str.{Str, lit}
use zaphyl.Proxy.{new_ctx, RequestCtx}

-- The chunks that have a body count; the counter is a `u64`.
unfoldable pub request_body_filter : Option ℕ → Option (List ℕ) → RequestCtx → Result Str RequestCtx
request_body_filter none body ctx = ok ctx
request_body_filter (some max) none ctx = ok ctx
request_body_filter (some max) (some chunk) ctx =
    let seen = (ctx.body_seen + length chunk) % 2 ^ 64 in
    if ltb max seen
    then err (lit "request body exceeds limit")
    else ok (record ctx { body_seen = seen })

abbrev pub next_chunk : List ℕ → List (List ℕ) × Bool → List (List ℕ) × Bool
next_chunk chunk (sent, complete) = (chunk ∷ sent, complete)

abbrev pub forwarded :
    List ℕ → Result Str RequestCtx → (RequestCtx → List (List ℕ) × Bool) → List (List ℕ) × Bool
forwarded chunk (err e) rest = ([], false)
forwarded chunk (ok ctx) rest = next_chunk chunk (rest ctx)

-- The chunks of an upload that pass, and whether all do: an error ends the request.
unfoldable pub upload : Option ℕ → List (List ℕ) → RequestCtx → List (List ℕ) × Bool
upload max [] ctx = ([], true)
upload max (chunk ∷ chunks) ctx =
    forwarded chunk (request_body_filter max (some chunk) ctx) (upload max chunks)

unfoldable pub total : List (List ℕ) → ℕ
total [] = 0
total (chunk ∷ chunks) = length chunk + total chunks

upload-bounds :
    (max : ℕ) (chunks : List (List ℕ)) (ctx : RequestCtx)
    → ctx.body_seen ≤ max
    → ctx.body_seen + total chunks < 2 ^ 64
    → (ctx.body_seen + total (upload (some max) chunks ctx).0 ≤ max)
      × (((upload (some max) chunks ctx).1 ≡ true) ↔ (ctx.body_seen + total chunks ≤ max))
unfolding upload request_body_filter total
upload-bounds max [] ctx h fits = ground arith
upload-bounds max (chunk ∷ chunks) ctx h fits =
    let e : (ctx.body_seen + length chunk) % 2 ^ 64 ≡ ctx.body_seen + length chunk = omega arith in
    elim (Bool-cases (ltb max (ctx.body_seen + length chunk))) [
      | inl over ↦
          let more = ltb→lt _ _ over in
          rw (e, over) (omega arith, (λ c. cc, λ le. absurd (omega arith)))
      | inr within ↦
          let seen = ltb-false→le _ _ within in
          let (bound, all) =
            upload-bounds max chunks (record ctx { body_seen = ctx.body_seen + length chunk }) seen
              (omega arith) in
          rw (e, within) (omega arith, (λ c. omega (arith, all.0 c), λ le. all.1 (omega arith)))
    ]

-- With a limit, whatever the sizes of the chunks of an upload, the bytes that pass are at most the
-- limit, and the whole upload passes exactly when its bytes are no more than the limit. Its bytes fit
-- the 64-bit counter.
pub upload_lem :
    (max now : ℕ) (chunks : List (List ℕ))
    → total chunks < 2 ^ 64
    → (total (upload (some max) chunks (new_ctx now)).0 ≤ max)
      × (((upload (some max) chunks (new_ctx now)).1 ≡ true) ↔ (total chunks ≤ max))
unfolding new_ctx
upload_lem max now chunks fits =
    let (bound, all) = upload-bounds max chunks (new_ctx now) (omega arith) (omega arith) in
    (omega arith, (λ c. omega (arith, all.0 c), λ le. all.1 (omega arith)))
