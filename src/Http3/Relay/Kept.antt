-- ===== src/Http3/Relay/Kept.antt =====
-- What is stored of a response that was relayed.
use zaphyl.Prelude.{
  ℕ, ◌+◌, ◌*◌, ◌≤◌, ◌≡◌, refl, ◌∙◌, Bool, true, false, Option, some, List, [], ◌∷◌, ◌++◌, arith,
  ltb, leb, length, length-append, append_assoc, append-nil, if◌then◌else◌, ◌&&◌, Bool-cases, inl,
  inr, ltb-false→le,
}
use zaphyl.Str.{Str}
use zaphyl.Router.{Route}
use zaphyl.Cache.Store.{ResponseCache, DiskTier, in_range, put}
use zaphyl.Proxy.{HeaderMap, ResponseHeader}
use zaphyl.Proxy.Storing.{storable}
use zaphyl.Proxy.Storing.Whole.{concat}
use zaphyl.Proxy.Forwarding.{Http}
use zaphyl.Http3.{accumulate_cache_body}
use zaphyl.Http3.Cached.{accumulate_all, store_response, ttl_of}
use zaphyl.Http3.Request.{relayed}
use zaphyl.Http3.Relay.{relay}

accumulate-over :
    (max : ℕ) (chunks : List (List ℕ)) → accumulate_all true max chunks ([], true) ≡ ([], true)
unfolding accumulate_all accumulate_cache_body
accumulate-over max [] = refl
accumulate-over max (chunk ∷ chunks) = accumulate-over max chunks

accumulate-keeps :
    (max : ℕ) (chunks : List (List ℕ)) (body : List ℕ)
    → length body ≤ max
    → accumulate_all true max chunks (body, false) ≡ (
        if leb (length (body ++ concat chunks)) max
        then (body ++ concat chunks, false)
        else ([], true))
unfolding accumulate_all accumulate_cache_body
accumulate-keeps max [] body h = rw (append-nil body) (ground arith)
accumulate-keeps max (chunk ∷ chunks) body h =
    elim (Bool-cases (ltb max (length body + length chunk))) [
      | inl over ↦ rw over (
          accumulate-over max chunks
          ∙ ground (
            arith,
            length-append body (chunk ++ concat chunks),
            length-append chunk (concat chunks),
          ))
      | inr within ↦
          let fits : length (body ++ chunk) ≤ max =
            rw (length-append body chunk) (ltb-false→le _ _ within) in
          rw within (
            rw (← append_assoc body chunk (concat chunks))
              (accumulate-keeps max chunks (body ++ chunk) fits))
    ]

module _ (http : Http) (is_zero_float : Str → Bool) {D : Type 0} (disk : Option (DiskTier D))
    (level : Option ℕ) (max : ℕ) where
  -- A response that the policy admits, as it is with the route's headers and before it is encoded, is
  -- stored under the key that was remembered, whole, with its storable headers and its expiry, if its
  -- body fits the limit and the end of its lifetime is not beyond the last `SystemTime`; otherwise the
  -- cache is left as it was.
  pub relay-stores :
      (key : Str) (route : Route) (request : HeaderMap) (now ttl : ℕ) (response : ResponseHeader)
      (chunks : List (List ℕ)) (cache : ResponseCache × D)
      → ttl_of (relayed http route response) ≡ some ttl
      → (relay http is_zero_float disk level max
          (some key)
          route
          request
          now
          response
          chunks
          cache).1
        ≡ (if leb (length (concat chunks)) max && in_range now ttl
            then put disk key
                (
                  now + 1000 * ttl,
                  record {
                    status = response.status;
                    headers = storable (relayed http route response).headers;
                    body = concat chunks;
                  },
                )
                cache
            else cache)
  unfolding relay store_response relayed
  relay-stores key route request now ttl response chunks cache admitted =
      let kept = accumulate-keeps max chunks [] (omega arith) in
      rw (admitted, kept)
        (elim (Bool-cases (leb (length (concat chunks)) max)) [
          | inl fits ↦
              rw fits
                (elim (Bool-cases (in_range now ttl)) [ inl e ↦ rw e refl | inr e ↦ rw e refl ])
          | inr e ↦ rw e refl
        ])
