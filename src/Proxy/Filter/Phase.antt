-- ===== src/Proxy/Filter/Phase.antt =====
-- crates/zaphyl/src/main.rs, `request_filter` as a whole: the guards, the static files, the plugins and
-- the cache, in this order. A step that replies, or fails, is the last one.
use zaphyl.Prelude.{ℕ, Bool, Option, none, some, ok, err}
use zaphyl.Str.{Str}
use zaphyl.Access.{IpLib, AccessControl}
use zaphyl.RateLimit.{RateLimiter}
use zaphyl.Router.{Memory, Router}
use zaphyl.Cache.Store.{ResponseCache, DiskTier}
use zaphyl.Static.{FileSystem, PathBuf}
use zaphyl.Plugin.{Wasm, Plugins}
use zaphyl.Upstream.{Client}
use zaphyl.Proxy.Guards.{guards, client_key}
use zaphyl.Proxy.Forwarding.{Http, RequestHeader}
use zaphyl.Proxy.Filter.{Filtered, respond_error, try_serve_static}
use zaphyl.Proxy.Filter.Plugins.{Upload, try_run_plugins}
use zaphyl.Proxy.Filter.Caching.{CachePhase, cache_phase}

-- What a request may change in the phase.
pub record World (D : Type 0) : Type 0 where
  pub limiter : Option RateLimiter
  pub cache_key : Option Str
  pub memory : Memory
  -- The cache, if there is one.
  pub cache : Option (ResponseCache × D)
  -- The level of compression that the session was set to.
  pub compression : Option ℕ

-- Code that is not of this program.
pub record Outside : Type 1 where
  pub http : Http
  pub is_status : ℕ → Bool
  pub ip : IpLib
  pub show_ip : ip.IpAddr → Str
  pub fs : FileSystem
  pub path_of : Str → PathBuf
  pub mime : PathBuf → Str
  pub wasm : Wasm
  pub client : Client
  pub revalidation_client : Client

abbrev pub compress : {D : Type 0} → Option ℕ → World D → World D
compress none w = w
compress (some level) w = record w { compression = some level }

-- The end of the phase, for a request that goes on.
abbrev pub compressed : {D : Type 0} → Option ℕ → Filtered × World D → Filtered × World D
compressed level (err e, w) = (err e, w)
compressed level (ok (some reply), w) = (ok (some reply), w)
compressed level (ok none, w) = (ok none, compress level w)

abbrev pub put_back : {D : Type 0} → World D → Filtered × CachePhase D → Filtered × World D
put_back w (r, s) =
    (r, record w { cache_key = s.cache_key; memory = s.memory; cache = some s.cache })

module _ (o : Outside) where
  -- A request, and the times at which the clocks are read for it.
  pub record Session : Type 0 where
    pub request : RequestHeader
    pub client_ip : Option (o.ip.IpAddr)
    pub upload : Upload
    pub elapsed : ℕ
    pub now : ℕ
    pub later : ℕ

  module _ (D : Type 0) where
    pub record Proxy : Type 0 where
      pub router : Router
      pub access : AccessControl (o.ip)
      pub max_body_bytes : Option ℕ
      pub plugins : Option (Plugins (o.wasm))
      pub disk : Option (DiskTier D)
      pub read_timeout : Option ℕ
      pub cache_max_body : ℕ
      pub compression_level : Option ℕ

    abbrev pub with_cache :
        Proxy → Session → World D → Option (ResponseCache × D) → Filtered × World D
    with_cache p s w none = (ok none, w)
    with_cache p s w (some cache) = put_back w (
        cache_phase o.http o.is_status o.revalidation_client p.disk p.read_timeout p.cache_max_body
          p.router s.request s.now s.later
          (record { cache_key = w.cache_key; memory = w.memory; cache = cache }))

    abbrev pub after_plugins : Proxy → Session → World D → Filtered × Memory → Filtered × World D
    after_plugins p s w (err e, m) = (err e, record w { memory = m })
    after_plugins p s w (ok (some reply), m) = (ok (some reply), record w { memory = m })
    after_plugins p s w (ok none, m) =
        compressed p.compression_level (with_cache p s (record w { memory = m }) w.cache)

    abbrev pub after_static : Proxy → Session → World D → Filtered → Filtered × World D
    after_static p s w (err e) = (err e, w)
    after_static p s w (ok (some reply)) = (ok (some reply), w)
    after_static p s w (ok none) = after_plugins p s w (
        try_run_plugins o.http o.is_status o.wasm o.client p.plugins p.router s.request
          (client_key o.ip o.show_ip s.client_ip) s.upload w.memory)

    abbrev pub after_guards :
        Proxy → Session → World D → Option ℕ × Option RateLimiter → Filtered × World D
    after_guards p s w (some status, limiter) =
        (ok (some (respond_error status)), record w { limiter = limiter })
    after_guards p s w (none, limiter) =
        after_static p s (record w { limiter = limiter })
          (try_serve_static o.http o.is_status o.fs o.path_of o.mime p.router s.request)

    unfoldable pub request_filter : Proxy → Session → World D → Filtered × World D
    request_filter p s w = after_guards p s w (
        guards o.ip o.show_ip p.access w.limiter p.max_body_bytes s.client_ip s.elapsed
          s.request.headers)
