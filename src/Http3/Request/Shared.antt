-- ===== src/Http3/Request/Shared.antt =====
-- That the HTTP/3 front serves what the other listener has stored: both hold the one cache.
use zaphyl.Prelude.{
  inl, inr, Bool-cases, ℕ, ◌+◌, ◌*◌, ◌≤◌, ◌<◌, ◌≡◌, refl, true, false, Option, none, some, List,
  length, ok, and_then,
}
use zaphyl.Str.{Str, lit}
use zaphyl.Access.{allows, has_no_rules}
use zaphyl.Router.{Route, Router, match_route}
use zaphyl.Cache.Store
use zaphyl.Cache.Store.{CachedResponse, ResponseCache, in_range, fresh}
use zaphyl.Cache.Store.Others.{Others}
use zaphyl.Proxy.{ResponseHeader, header_text}
use zaphyl.Proxy.Storing.Whole.{concat, ttl_of, exchange}
use zaphyl.Proxy.Filter.Caching.{Asked, CachePhase, cache_phase_of}
use zaphyl.Proxy.Filter.Phase.{Outside}
use zaphyl.Proxy.Filter.Repeated.{stored_of, ctx_with, found-exchange}
use zaphyl.Http3.Serving.{serve_hit}
use zaphyl.Http3.Cached.{look_up, look_found}
use zaphyl.Http3.Request.{
  World, Arrival, Front, answer, asked_of, serve_cached, run_plugins, routed, proxy_request,
}

-- The directory of static files that a route may have.
abbrev pub static_of : Option Route → Option Str
static_of route = and_then route (λ r. r.static_dir)

module _ (o : Outside) (D : Type 0) (f : Front o D) (a : Arrival o) where
  serve_cached-fresh :
      (w : World D) (route : Option Route) (cache : ResponseCache × D) (asked : Asked)
      (r : CachedResponse)
      → asked_of o a ≡ some asked
      → (Store.lookup f.disk asked.key a.now cache).0 ≡ fresh r
      → ((serve_cached o D f a w route (some cache)).0
          ≡ ok (
              answer (
                serve_hit o.http o.is_status r
                  (header_text (lit "if-none-match") a.request.headers))))
        × ((serve_cached o D f a w route (some cache)).1.memory ≡ w.memory)
  unfolding serve_cached look_up look_found
  serve_cached-fresh w route cache asked r asks found = rw asks (rw found (refl, refl))

  routed-cached :
      (w : World D) (route : Option Route)
      → f.plugins ≡ none
      → static_of route ≡ none
      → routed o D f a w route ≡ serve_cached o D f a w route w.cache
  unfolding run_plugins
  routed-cached w none no_plugins no_files = rw no_plugins refl
  routed-cached w (some route) no_plugins no_files = rw (no_files, no_plugins) refl

  -- A request over HTTP/1 or HTTP/2 goes on to the upstream, whose answer the policy admits, whose body
  -- fits the limit, and whose expiry is a `SystemTime`. What is stored of it is served over HTTP/3 too,
  -- until its lifetime is over, as long as nothing else is stored under the key and no store or lookup
  -- under another key evicts it: after any such stores and lookups, a request over HTTP/3 with the same
  -- key is answered from it, without a turn of any target, if its client is allowed, it did not come
  -- early, and its route has no files and no plugins run.
  pub exchange-crosses :
      (first second : Asked) (response : ResponseHeader) (chunks : List (List ℕ)) (router : Router)
      (read_timeout : Option ℕ) (max now later start stored_at ttl : ℕ) (s : CachePhase D)
      (w : World D) (cache : ResponseCache × D)
      → (cache_phase_of o.http o.is_status o.revalidation_client f.disk read_timeout max router
          (some first)
          now
          later
          s).0
        ≡ ok none
      → ttl_of response ≡ some ttl
      → length (concat chunks) ≤ max
      → in_range stored_at ttl ≡ true
      → w.cache ≡ some cache
      → Others f.disk first.key
          (exchange f.disk max response chunks stored_at (
            ctx_with start
                (cache_phase_of o.http o.is_status o.revalidation_client f.disk read_timeout max
                  router
                  (some first)
                  now
                  later
                  s).1.cache_key,
            (cache_phase_of o.http o.is_status o.revalidation_client f.disk read_timeout max router
                (some first)
                now
                later
                s).1.cache,
          )).1
          cache
      → asked_of o a ≡ some second
      → second.key ≡ first.key
      → a.now < stored_at + 1000 * ttl
      → f.plugins ≡ none
      → static_of (match_route f.router a.host a.request.path) ≡ none
      → allows o.ip f.access a.client_ip ≡ true
      → a.is_early ≡ false
      → ((proxy_request o D f a w).0
          ≡ ok (
              answer (
                serve_hit o.http o.is_status
                  (stored_of response chunks)
                  (header_text (lit "if-none-match") a.request.headers))))
        × ((proxy_request o D f a w).1.memory ≡ w.memory)
  unfolding proxy_request
  exchange-crosses first second response chunks router read_timeout max now later start stored_at
        ttl s w cache on admitted fits in_time holds others asks same alive no_plugins no_files
        allowed late =
      let found =
        found-exchange o.http o.is_status o.revalidation_client f.disk read_timeout max router first
          second.key response chunks now later start stored_at ttl a.now s cache on admitted fits
          in_time others same alive in
      let served =
        serve_cached-fresh w (match_route f.router a.host a.request.path) cache second
          (stored_of response chunks) asks found in
      let direct =
        routed-cached w (match_route f.router a.host a.request.path) no_plugins no_files in
      elim (Bool-cases (has_no_rules o.ip f.access)) [
        | inl e ↦ rw (e, direct, holds) (simp (late) served)
        | inr e ↦ rw (e, allowed, direct, holds) (simp (late) served)
      ]
