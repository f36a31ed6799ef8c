-- ===== src/Proxy/Filter/Repeated.antt =====
-- Two requests for one response: the first goes on to the upstream, and its answer is stored; the second
-- is served from what was stored.
use zaphyl.Prelude.{
  subst, ap, true, Bool, ℕ, ◌+◌, ◌*◌, ◌≤◌, ◌<◌, ◌≡◌, inl, inr, refl, ◌∙◌, Option, none, some, List,
  arith, length, leb, ok,
}
use zaphyl.Str.{Str}
use zaphyl.Router.{Router}
use zaphyl.Cache.Store
use zaphyl.Cache.Store.{CachedResponse, ResponseCache, DiskTier, in_range, fresh, put}
use zaphyl.Cache.Store.Served.{hit-live}
use zaphyl.Cache.Store.Others.{Others, lookup-Others}
use zaphyl.Upstream.{Client}
use zaphyl.Proxy.{ResponseHeader, RequestCtx, new_ctx}
use zaphyl.Proxy.Storing.{storable}
use zaphyl.Proxy.Storing.Whole.{concat, ttl_of, exchange, exchange-some}
use zaphyl.Proxy.Forwarding.{Http}
use zaphyl.Proxy.Filter.{Filtered}
use zaphyl.Proxy.Filter.Caching.{Asked, CachePhase, cache_phase_of}
use zaphyl.Proxy.Filter.Served.{cache_phase-Remembers}

-- What is stored of a response that came in these chunks.
abbrev pub stored_of : ResponseHeader → List (List ℕ) → CachedResponse
stored_of response chunks = record {
  status = response.status;
  headers = storable response.headers;
  body = concat chunks;
}

-- The request's context behind the phase.
abbrev pub ctx_with : ℕ → Option Str → RequestCtx
ctx_with start key = record (new_ctx start) { cache_key = key }

module _ (http : Http) (is_status : ℕ → Bool) (client : Client) {D : Type 0}
    (disk : Option (DiskTier D)) (read_timeout : Option ℕ) (max : ℕ) (router : Router) where
  abbrev pub phase : Asked → ℕ → ℕ → CachePhase D → Filtered × CachePhase D
  phase asked now later s =
      cache_phase_of http is_status client disk read_timeout max router (some asked) now later s

  went_on-key :
      (asked : Asked) (now later : ℕ) (s : CachePhase D)
      → (phase asked now later s).0 ≡ ok none
      → (phase asked now later s).1.cache_key ≡ some asked.key
  went_on-key asked now later s h =
      elim (cache_phase-Remembers http is_status client disk read_timeout max router asked now later
        s) [ inl (_, key) ↦ key | inr (replied, _) ↦ absurd (replied h) ]

  -- What `exchange` stores is found under its key until its lifetime is over, whatever the others do.
  lookup-exchange :
      (key : Str) (response : ResponseHeader) (chunks : List (List ℕ)) (start stored_at ttl t : ℕ)
      (before cache : ResponseCache × D)
      → ttl_of response ≡ some ttl
      → length (concat chunks) ≤ max
      → in_range stored_at ttl ≡ true
      → Others disk key
          (exchange disk max response chunks stored_at (ctx_with start (some key), before)).1
          cache
      → t < stored_at + 1000 * ttl
      → (Store.lookup disk key t cache).0 ≡ fresh (stored_of response chunks)
  lookup-exchange key response chunks start stored_at ttl t before cache admitted fits in_time
        others alive =
      let small : leb (length (concat chunks)) max ≡ true = ground arith in
      let stores : (exchange disk max response chunks stored_at
            (ctx_with start (some key), before)).1
          ≡ put disk key (stored_at + 1000 * ttl, stored_of response chunks) before =
        rw
          (
            exchange-some disk max response chunks start stored_at ttl key before admitted,
            small,
            in_time,
          )
          refl in
      lookup-Others disk key (stored_at + 1000 * ttl, stored_of response chunks) t before cache
        (subst (λ c. Others disk key c cache) stores others)
      ∙ hit-live t _ _ alive

  -- What the exchange of a request that went on has stored is found under its key.
  pub found-exchange :
      (first : Asked) (sought : Str) (response : ResponseHeader) (chunks : List (List ℕ))
      (now later start stored_at ttl t : ℕ) (s : CachePhase D) (cache : ResponseCache × D)
      → (phase first now later s).0 ≡ ok none
      → ttl_of response ≡ some ttl
      → length (concat chunks) ≤ max
      → in_range stored_at ttl ≡ true
      → Others disk first.key
          (exchange disk max response chunks stored_at (
            ctx_with start (phase first now later s).1.cache_key,
            (phase first now later s).1.cache,
          )).1
          cache
      → sought ≡ first.key
      → t < stored_at + 1000 * ttl
      → (Store.lookup disk sought t cache).0 ≡ fresh (stored_of response chunks)
  found-exchange first sought response chunks now later start stored_at ttl t s cache on admitted
        fits in_time others same alive =
      let before = (phase first now later s).1.cache in
      let kept : Others disk first.key
          (exchange disk max response chunks stored_at (ctx_with start (some first.key), before)).1
          cache =
        subst
          (λ (k : Option Str).
            Others disk first.key
              (exchange disk max response chunks stored_at (ctx_with start k, before)).1 cache)
          (went_on-key first now later s on) others in
      ap (λ k. (Store.lookup disk k t cache).0) same
      ∙ lookup-exchange first.key response chunks start stored_at ttl t before cache admitted fits
          in_time kept alive
