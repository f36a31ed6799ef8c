-- ===== src/Start/Listeners.antt =====
-- crates/zaphyl/src/main.rs, `ZaphylProxy` with its `new`, and what `main` hands to the listener for
-- HTTP/3; crates/zaphyl/src/http3.rs, `Limits` and `Caching`. Times are in seconds.
use zaphyl.Prelude.{ℕ, Bool, Option, none, some, List, ◌++◌, option_map, and_then, unwrap_or}
use zaphyl.Str.{Str, lit}
use zaphyl.Access.{AccessControl}
use zaphyl.RateLimit
use zaphyl.RateLimit.{RateLimiter}
use zaphyl.Router.{Router}
use zaphyl.Config.Types.{Config, LimitsConfig}
use zaphyl.Config.Validate.{show_uint}
use zaphyl.Cache.Store
use zaphyl.Cache.Store.{ResponseCache, DiskTier}
use zaphyl.Cache.Disk
use zaphyl.Cache.Disk.{DiskStore}
use zaphyl.Plugin.{Plugins}
use zaphyl.Upstream.{Client}
use zaphyl.Proxy.{header_pairs}
use zaphyl.Proxy.Filter.Phase
use zaphyl.Proxy.Filter.Phase.{Outside}
use zaphyl.Http3.Request.{Front}

-- The field `disk` of the cache is kept beside the entries in memory.
abbrev pub Cache : Type 0 → Type 0
Cache D = ResponseCache × Option (DiskTier D)

-- What the directory of a disk store can be read and written by.
abbrev pub with_disk : {D : Type 0} → (Str → DiskStore → DiskTier D) → ℕ → Str → Cache D
with_disk open_dir max_entries dir =
    (Store.new max_entries, some (open_dir dir (Disk.new max_entries)))

abbrev pub cache_at : {D : Type 0} → (Str → DiskStore → DiskTier D) → ℕ → Option Str → Cache D
cache_at open_dir max_entries none = (Store.new max_entries, none)
cache_at open_dir max_entries (some dir) = with_disk open_dir max_entries dir

-- `config.cache.as_ref().map(...)` in `main`.
unfoldable pub cache_of : {D : Type 0} → (Str → DiskStore → DiskTier D) → Config → Option (Cache D)
cache_of open_dir config =
    option_map (λ c. cache_at open_dir c.max_entries c.disk_path) config.cache

abbrev pub limit_of : (LimitsConfig → Option ℕ) → Config → Option ℕ
limit_of field config = and_then config.limits field

abbrev pub max_body_of : Config → ℕ
max_body_of config = unwrap_or (option_map (λ c. c.max_body_bytes) config.cache) 0

abbrev pub alt_svc_of : ℕ → Str
alt_svc_of port = lit "h3=\":" ++ (show_uint port ++ lit "\"; ma=86400")

-- The settings of the listener for HTTP/3.
pub record Limits : Type 0 where
  pub max_body_bytes : Option ℕ
  pub max_header_bytes : Option ℕ
  pub connect_timeout : Option ℕ
  pub read_timeout : Option ℕ
  pub compression_level : Option ℕ

unfoldable pub limits_of : Config → Limits
limits_of config = record {
  max_body_bytes = limit_of (λ l. l.max_request_body_bytes) config;
  max_header_bytes = limit_of (λ l. l.max_request_header_bytes) config;
  connect_timeout = limit_of (λ l. l.upstream_connect_timeout_seconds) config;
  read_timeout = limit_of (λ l. l.upstream_read_timeout_seconds) config;
  compression_level = option_map (λ c. c.level) config.compression;
}

module _ (o : Outside) (D : Type 0) where
  pub record ZaphylProxy : Type 0 where
    pub router : Router
    pub rate_limiter : Option RateLimiter
    pub started : ℕ
    pub response_headers : List (Str × Str)
    pub tls_enabled : Bool
    pub alt_svc : Option Str
    pub max_body_bytes : Option ℕ
    pub connect_timeout : Option ℕ
    pub read_timeout : Option ℕ
    pub access : AccessControl (o.ip)
    pub compression_level : Option ℕ
    pub cache : Option (Cache D)
    pub cache_max_body : ℕ
    pub revalidation_client : Client
    pub plugins : Option (Plugins (o.wasm))

  unfoldable pub new :
      (Option Str → Client)
      → Option Str
      → ℕ
      → Config
      → Bool
      → Router
      → AccessControl (o.ip)
      → Option (Cache D)
      → Option (Plugins (o.wasm))
      → ZaphylProxy
  new build_client upstream_ca now config tls_enabled router access cache plugins = record {
    router = router;
    rate_limiter =
        option_map (λ limit. RateLimit.new 1000 limit.requests_per_second) config.rate_limit;
    started = now;
    response_headers = header_pairs config.response_headers;
    tls_enabled = tls_enabled;
    alt_svc = option_map (λ http3. alt_svc_of http3.listen.port) config.http3;
    max_body_bytes = limit_of (λ l. l.max_request_body_bytes) config;
    connect_timeout = limit_of (λ l. l.upstream_connect_timeout_seconds) config;
    read_timeout = limit_of (λ l. l.upstream_read_timeout_seconds) config;
    access = access;
    compression_level = option_map (λ c. c.level) config.compression;
    cache = cache;
    cache_max_body = max_body_of config;
    revalidation_client = build_client upstream_ca;
    plugins = plugins;
  }

  -- The part of the proxy that its filter of requests reads.
  abbrev pub filter_of : ZaphylProxy → Phase.Proxy o D
  filter_of p = record {
    router = p.router;
    access = p.access;
    max_body_bytes = p.max_body_bytes;
    plugins = p.plugins;
    disk = and_then p.cache (λ cache. cache.1);
    read_timeout = p.read_timeout;
    cache_max_body = p.cache_max_body;
    compression_level = p.compression_level;
  }

  pub record Caching : Type 0 where
    pub cache : Option (Cache D)
    pub max_body : ℕ
    pub reval_client : Option Client
    pub reval_timeout : Option ℕ

  unfoldable pub caching_of :
      (Option Str → Client) → Option Str → Config → Option (Cache D) → Caching
  caching_of build_client upstream_ca config cache = record {
    cache = cache;
    max_body = max_body_of config;
    reval_client = option_map (λ c. build_client upstream_ca) cache;
    reval_timeout = limit_of (λ l. l.upstream_read_timeout_seconds) config;
  }

  -- What the requests over HTTP/3 are served with.
  unfoldable pub front_with :
      (Str → Bool)
      → Router
      → Limits
      → AccessControl (o.ip)
      → Caching
      → Option (Plugins (o.wasm))
      → Front o D
  front_with valid_uri router limits access caching plugins = record {
    router = router;
    access = access;
    max_body_bytes = limits.max_body_bytes;
    valid_uri = valid_uri;
    plugins = plugins;
    disk = and_then caching.cache (λ cache. cache.1);
    reval_client = caching.reval_client;
    reval_timeout = caching.reval_timeout;
    cache_max_body = caching.max_body;
  }
