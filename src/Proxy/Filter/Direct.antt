-- ===== src/Proxy/Filter/Direct.antt =====
-- What the phase as a whole leaves alone, and which requests it lets go on.
use zaphyl.Prelude.{
  ap, ℕ, ◌≡◌, ◌≢◌, inl, inr, refl, false, Option, none, some, List, arith, ok, err, Bool-cases,
}
use zaphyl.Str.{Str, lit}
use zaphyl.Access.{allows}
use zaphyl.RateLimit.{RateLimiter}
use zaphyl.Router.{Memory, Route, match_route}
use zaphyl.Cache.Policy.{request_cacheable}
use zaphyl.Cache.Store.{ResponseCache}
use zaphyl.Proxy.{header_text, has_header}
use zaphyl.Proxy.Guards.{guards, guards_lem}
use zaphyl.Proxy.Forwarding.{host_of}
use zaphyl.Proxy.Filter.{
  serve_file, serve_contents, PathBuf, Filtered, respond_error, try_serve_static,
}
use zaphyl.Proxy.Filter.Caching.{CachePhase, lookup_request, cache_phase, cache_phase_of}
use zaphyl.Proxy.Filter.Phase.{
  World, Outside, Proxy, Session, request_filter, with_cache, after_plugins, after_static,
  after_guards, compressed,
}

-- The cache, and the key under which an answer may be stored, are what they were.
abbrev pub SameCache : {D : Type 0} → World D → World D → Type 0
SameCache w w' = (w'.cache ≡ w.cache) × (w'.cache_key ≡ w.cache_key)

compressed-SameCache :
    {D : Type 0} (level : Option ℕ) (w : World D) (r : Filtered × World D)
    → SameCache w r.1
    → SameCache w (compressed level r).1
compressed-SameCache level w (err e, w') h = h
compressed-SameCache level w (ok (some reply), w') h = h
compressed-SameCache none w (ok none, w') h = h
compressed-SameCache (some l) w (ok none, w') h = h

module _ (o : Outside) (D : Type 0) (p : Proxy o D) (s : Session o) where
  -- The request does not get to the cache.
  abbrev pub IsPrivate : Type 0
  IsPrivate =
      request_cacheable s.request.method (header_text (lit "cache-control") s.request.headers)
        (has_header (lit "authorization") s.request.headers)
      ≡ false

  phase-skips :
      (st : CachePhase D)
      → IsPrivate
      → cache_phase o.http o.is_status o.revalidation_client p.disk p.read_timeout p.cache_max_body
          p.router s.request s.now s.later st
        ≡ (ok none, st)
  unfolding cache_phase cache_phase_of lookup_request
  phase-skips st h = rw h refl

  with_cache-SameCache :
      (w : World D) (cache : Option (ResponseCache × D))
      → IsPrivate
      → w.cache ≡ cache
      → SameCache w (with_cache o D p s w cache).1
  with_cache-SameCache w none h e = (refl, refl)
  with_cache-SameCache w (some cache) h e = rw (phase-skips _ h) (cc, refl)

  after_plugins-SameCache :
      (w : World D) (r : Filtered × Memory) → IsPrivate → SameCache w (after_plugins o D p s w r).1
  after_plugins-SameCache w (err e, m) h = (refl, refl)
  after_plugins-SameCache w (ok (some reply), m) h = (refl, refl)
  after_plugins-SameCache w (ok none, m) h =
      compressed-SameCache p.compression_level w _
        (with_cache-SameCache (record w { memory = m }) w.cache h refl)

  after_static-SameCache :
      (w : World D) (r : Filtered) → IsPrivate → SameCache w (after_static o D p s w r).1
  after_static-SameCache w (err e) h = (refl, refl)
  after_static-SameCache w (ok (some reply)) h = (refl, refl)
  after_static-SameCache w (ok none) h = after_plugins-SameCache w _ h

  after_guards-SameCache :
      (w : World D) (r : Option ℕ × Option RateLimiter)
      → IsPrivate
      → SameCache w (after_guards o D p s w r).1
  after_guards-SameCache w (some status, limiter) h = (refl, refl)
  after_guards-SameCache w (none, limiter) h =
      after_static-SameCache (record w { limiter = limiter }) _ h

  -- A request that may not be cached (it is not a GET, has credentials, or forbids it) leaves the cache
  -- as it is, and no key to store an answer under, however the phase ends.
  pub request_filter-SameCache :
      (w : World D) → IsPrivate → SameCache w (request_filter o D p s w).1
  unfolding request_filter
  request_filter-SameCache w h = after_guards-SameCache w _ h

  contents-replies :
      (file : PathBuf) (contents : Option (List ℕ))
      → serve_contents o.http o.is_status o.fs o.path_of o.mime file contents ≢ ok none
  contents-replies file none e = ground (arith, e)
  contents-replies file (some contents) e = elim (Bool-cases (o.is_status 200)) [
    | inl h ↦ ground (arith, rw h at e)
    | inr h ↦ ground (arith, rw h at e)
  ]

  file-replies :
      (file : Option PathBuf) → serve_file o.http o.is_status o.fs o.path_of o.mime file ≢ ok none
  file-replies none e = ground (arith, e)
  file-replies (some file) e = contents-replies file (o.fs.read file) e

  -- The request's route is the one that serves files from this directory.
  abbrev pub IsStatic : Route → Str → Type 0
  IsStatic route dir =
      (match_route p.router (host_of s.request.headers) s.request.path ≡ some route)
      × (route.static_dir ≡ some dir)

  static-replies :
      (route : Route) (dir : Str)
      → IsStatic route dir
      → try_serve_static o.http o.is_status o.fs o.path_of o.mime p.router s.request ≢ ok none
  unfolding try_serve_static
  static-replies route dir (h_route, h_dir) e = file-replies _ (rw h_dir at (rw h_route at e))

  after_static-replies :
      (w : World D) (r : Filtered) → r ≢ ok none → after_static o D p s w r ≡ (r, w)
  after_static-replies w (err e) h = refl
  after_static-replies w (ok (some reply)) h = refl
  after_static-replies w (ok none) h = absurd (h refl)

  -- On a route that serves files, a request that passes the guards is answered, or fails, without an
  -- upstream: the turns of the targets, the cache and the session are left as they were. It never goes
  -- on to the proxy.
  pub request_filter-IsStatic :
      (w : World D) (route : Route) (dir : Str) (limiter : Option RateLimiter)
      → guards o.ip o.show_ip p.access w.limiter p.max_body_bytes s.client_ip s.elapsed
          s.request.headers
        ≡ (none, limiter)
      → IsStatic route dir
      → ((request_filter o D p s w).0 ≢ ok none)
        × ((request_filter o D p s w).1 ≡ record w { limiter = limiter })
  unfolding request_filter
  request_filter-IsStatic w route dir limiter h_guards h =
      let answers = static-replies route dir h in
      let whole = after_static-replies (record w { limiter = limiter }) _ answers in
      rw h_guards (rw whole (answers, refl))

  after_guards-passed :
      (w : World D) (r : Option ℕ × Option RateLimiter)
      → (after_guards o D p s w r).0 ≡ ok none
      → r ≡ (none, r.1)
  after_guards-passed w (some status, limiter) e = absurd (ground (arith, e))
  after_guards-passed w (none, limiter) e = refl

  -- A request that goes on to the proxy has passed the access rules, the rate limit and the limit on a
  -- declared length, and its route, if it has one, does not serve files.
  pub request_filter-passed :
      (w : World D)
      → (request_filter o D p s w).0 ≡ ok none
      → ((guards o.ip o.show_ip p.access w.limiter p.max_body_bytes s.client_ip s.elapsed
            s.request.headers).0
          ≡ none)
        × ((route : Route) (dir : Str) → ¬ (IsStatic route dir))
  unfolding request_filter
  request_filter-passed w e =
      let passed =
        after_guards-passed w
          (guards o.ip o.show_ip p.access w.limiter p.max_body_bytes s.client_ip s.elapsed
            s.request.headers)
          e in
      (
        ap (λ (r : Option ℕ × Option RateLimiter). r.0) passed,
        λ route dir h. (request_filter-IsStatic w route dir _ passed h).0 e,
      )

  -- A client whose address the access rules refuse is answered by 403, and that is all: nothing that
  -- the proxy keeps is changed, the rate limiter included.
  pub request_filter-denied :
      (w : World D) (ip : o.ip.IpAddr)
      → s.client_ip ≡ some ip
      → allows o.ip p.access ip ≡ false
      → request_filter o D p s w ≡ (ok (some (respond_error 403)), w)
  unfolding request_filter
  request_filter-denied w ip e h =
      rw
        ((guards_lem o.ip o.show_ip p.access w.limiter p.max_body_bytes s.client_ip s.elapsed
            s.request.headers).1
          ip e h)
        refl
