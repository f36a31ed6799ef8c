-- ===== src/Proxy/Storing/Whole.antt =====
-- A whole response of an upstream: its header, its chunks, and the end of its stream.
use zaphyl.Prelude.{
  ℕ, ◌+◌, ◌*◌, ◌≤◌, ◌≡◌, refl, ◌∙◌, Bool, true, false, Option, none, some, List, [], ◌∷◌, ◌++◌,
  arith, ltb, leb, length, length-append, append_assoc, append-nil, if◌then◌else◌, ◌&&◌, Bool-cases,
  inl, inr, ltb-false→le,
}
use zaphyl.Str.{Str, lit}
use zaphyl.Cache.Policy.{response_ttl}
use zaphyl.Cache.Store.{ResponseCache, DiskTier, in_range, put}
use zaphyl.Proxy.{header_text, has_header, ResponseHeader, RequestCtx, new_ctx}
use zaphyl.Proxy.Storing.{
  storable, upstream_response_filter, keep_chunk, finish, upstream_response_body_filter,
}

abbrev pub concat : List (List ℕ) → List ℕ
concat [] = []
concat (chunk ∷ chunks) = chunk ++ concat chunks

-- The request whose response is being kept.
abbrev at : RequestCtx → ℕ → List ℕ → Bool → RequestCtx
at ctx ttl body overflow = record ctx {
  cache_ttl = some ttl;
  cache_body = body;
  cache_overflow = overflow;
}

abbrev pub ttl_of : ResponseHeader → Option ℕ
ttl_of r =
    response_ttl r.status (header_text (lit "cache-control") r.headers)
      (has_header (lit "set-cookie") r.headers) (header_text (lit "vary") r.headers)

module _ {D : Type 0} (disk : Option (DiskTier D)) (max : ℕ) where
  -- The chunks, in order, before the end of the stream.
  unfoldable pub stream :
      List (List ℕ) → ℕ → RequestCtx × (ResponseCache × D) → RequestCtx × (ResponseCache × D)
  stream [] now state = state
  stream (chunk ∷ chunks) now state =
      stream chunks now (upstream_response_body_filter disk max (some chunk) false now state)

  -- The header, the chunks, and the end.
  unfoldable pub exchange :
      ResponseHeader
      → List (List ℕ)
      → ℕ
      → RequestCtx × (ResponseCache × D)
      → RequestCtx × (ResponseCache × D)
  unfolding stream
  exchange response chunks now (ctx, cache) =
      upstream_response_body_filter disk max none true now
        (stream chunks now (upstream_response_filter true response ctx, cache))

  stream-over :
      (chunks : List (List ℕ)) (now ttl : ℕ) (ctx : RequestCtx) (cache : ResponseCache × D)
      → stream chunks now (at ctx ttl [] true, cache) ≡ (at ctx ttl [] true, cache)
  unfolding stream upstream_response_body_filter
  stream-over [] now ttl ctx cache = refl
  stream-over (chunk ∷ chunks) now ttl ctx cache = stream-over chunks now ttl ctx cache

  stream-keeps :
      (chunks : List (List ℕ)) (now ttl : ℕ) (ctx : RequestCtx) (body : List ℕ)
      (cache : ResponseCache × D)
      → length body ≤ max
      → stream chunks now (at ctx ttl body false, cache) ≡ (
          if leb (length (body ++ concat chunks)) max
          then (at ctx ttl (body ++ concat chunks) false, cache)
          else (at ctx ttl [] true, cache))
  unfolding stream upstream_response_body_filter keep_chunk finish
  stream-keeps [] now ttl ctx body cache h = rw (append-nil body) (ground arith)
  stream-keeps (chunk ∷ chunks) now ttl ctx body cache h =
      elim (Bool-cases (ltb max (length body + length chunk))) [
        | inl over ↦ rw over (
            stream-over chunks now ttl ctx cache
            ∙ ground (
              arith,
              length-append body (chunk ++ concat chunks),
              length-append chunk (concat chunks),
            ))
        | inr fits ↦
            rw (fits, ← append_assoc body chunk (concat chunks))
              (stream-keeps chunks now ttl ctx (body ++ chunk) cache
                (omega (arith, length-append body chunk, ltb-false→le _ _ fits)))
      ]

  stream-none :
      (chunks : List (List ℕ)) (now : ℕ) (ctx : RequestCtx) (cache : ResponseCache × D)
      → stream chunks now (record ctx { cache_ttl = none }, cache)
        ≡ (record ctx { cache_ttl = none }, cache)
  unfolding stream upstream_response_body_filter
  stream-none [] now ctx cache = refl
  stream-none (chunk ∷ chunks) now ctx cache = stream-none chunks now ctx cache

  -- A response that the policy refuses leaves the cache as it was, whatever its body is.
  pub exchange-none :
      (response : ResponseHeader) (chunks : List (List ℕ)) (start now : ℕ) (key : Str)
      (cache : ResponseCache × D)
      → ttl_of response ≡ none
      → (exchange response chunks now (record (new_ctx start) { cache_key = some key }, cache)).1
        ≡ cache
  unfolding exchange upstream_response_filter upstream_response_body_filter new_ctx
  exchange-none response chunks start now key cache e =
      rw (e, stream-none chunks now (record (new_ctx start) { cache_key = none }) cache) refl

  -- A response that the policy admits is stored under the key of its request, if its body is not
  -- larger than the limit: with its status, the headers that may be stored, all bytes of all chunks in
  -- order, and the expiry of its lifetime. If its body is larger, or the end of its lifetime is beyond
  -- the last `SystemTime`, the cache is as it was.
  pub exchange-some :
      (response : ResponseHeader) (chunks : List (List ℕ)) (start now ttl : ℕ) (key : Str)
      (cache : ResponseCache × D)
      → ttl_of response ≡ some ttl
      → (exchange response chunks now (record (new_ctx start) { cache_key = some key }, cache)).1
        ≡ (if leb (length (concat chunks)) max && in_range now ttl
            then put disk key
                (
                  now + 1000 * ttl,
                  record {
                    status = response.status;
                    headers = storable response.headers;
                    body = concat chunks;
                  },
                )
                cache
            else cache)
  unfolding exchange upstream_response_filter upstream_response_body_filter finish keep_chunk
      new_ctx
  exchange-some response chunks start now ttl key cache e =
      let kept =
        stream-keeps chunks now ttl
          (record (new_ctx start) {
            cache_key = some key;
            cache_status = response.status;
            cache_headers = storable response.headers;
          })
          [] cache (omega arith) in
      rw (e, kept)
        (elim (Bool-cases (leb (length (concat chunks)) max)) [
          | inl fits ↦
              rw fits
                (elim (Bool-cases (in_range now ttl)) [ inl e ↦ rw e refl | inr e ↦ rw e refl ])
          | inr over ↦ rw over refl
        ])
