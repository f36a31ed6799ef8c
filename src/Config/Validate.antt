-- ===== src/Config/Validate.antt =====
-- crates/zaphyl-config/src/lib.rs, `Config::validate`: the checks, in their order. The first that
-- fails gives the error.
use zaphyl.Prelude.{
  ℕ, zero, suc, ◌+◌, ◌/◌, ◌%◌, ◌^◌, Bool, true, false, not, ◌&&◌, ◌||◌, Option, none, some, List,
  [], ◌∷◌, ◌++◌, ◌==◌, ltb, if◌then◌else◌, any, is_empty, is_some, is_some_and, Result, ok, err,
}
use zaphyl.Str.{Str, lit, trim, rsplit_once, parse_uint, starts_with}
use zaphyl.Config.Types.{
  TlsConfig, RateLimitConfig, HealthCheckConfig, LimitsConfig, CompressionConfig, CacheConfig,
  AcmeConfig, RouteConfig, Config, ConfigError, invalid,
}
pub mod Sound

infixl 5 ◌>>◌
abbrev pub ◌>>◌ :
    Result ConfigError (Unit {0}) → Result ConfigError (Unit {0}) → Result ConfigError (Unit {0})
ok a >> k = k
err e >> k = err e

-- `if failed { return Err(…) }`.
unfoldable pub refuse : Bool → Str → Result ConfigError (Unit {0})
refuse failed message = if failed then err (invalid message) else ok tt

-- The decimal digits of a number, in front of those that are there; the fuel bounds their count.
pub digits_before : ℕ → ℕ → Str → Str
digits_before zero n acc = acc
digits_before (suc fuel) n acc =
    let more = digits_before fuel (n / 10) ((b'0' + n % 10) ∷ acc) in
    if ltb n 10 then (b'0' + n) ∷ acc else more

-- A number of 64 bits has 20 digits at most.
pub show_uint : ℕ → Str
unfolding digits_before
show_uint n = digits_before 20 n []

abbrev pub is_blank : Str → Bool
is_blank s = is_empty (trim s)

abbrev pub is_zero : Option ℕ → Bool
is_zero o = is_some_and o (λ n. n == 0)

pub check_tls : Option TlsConfig → Result ConfigError (Unit {0})
check_tls none = ok tt
check_tls (some tls) =
    refuse (is_blank tls.cert || is_blank tls.key) (lit "tls.cert and tls.key must not be empty")

pub check_acme : Option AcmeConfig → Result ConfigError (Unit {0})
check_acme none = ok tt
check_acme (some acme) =
    refuse (is_empty acme.domains || any is_blank acme.domains)
      (lit "acme.domains must list at least one non-empty domain")
    >> refuse (is_blank acme.email) (lit "acme.email must not be empty")
    >> refuse (acme.renew_before_days == 0) (lit "acme.renew_before_days must be at least 1")
    >> refuse (acme.check_interval_seconds == 0)
        (lit "acme.check_interval_seconds must be at least 1")

pub check_limits : Option LimitsConfig → Result ConfigError (Unit {0})
check_limits none = ok tt
check_limits (some limits) =
    refuse (is_zero limits.max_request_body_bytes)
      (lit "limits.max_request_body_bytes must be at least 1")
    >> refuse
        (is_zero limits.upstream_connect_timeout_seconds
          || is_zero limits.upstream_read_timeout_seconds)
        (lit "limits upstream timeouts must be at least 1 second")

-- `rsplit_once(':')`, a host that is not empty, and a port of 16 bits.
pub is_host_port : Option (Str × Str) → Bool
is_host_port none = false
is_host_port (some (host, port)) = not (is_empty host) && is_some (parse_uint (2 ^ 16) port)

pub valid_upstream : Str → Bool
unfolding is_host_port
valid_upstream upstream = is_host_port (rsplit_once b':' (trim upstream))

pub check_upstreams : Str → List Str → Result ConfigError (Unit {0})
unfolding valid_upstream
check_upstreams route [] = ok tt
check_upstreams route (upstream ∷ upstreams) =
    refuse (not (valid_upstream upstream))
      (route ++ (lit ": upstream must be `host:port`, got `" ++ (upstream ++ lit "`")))
    >> check_upstreams route upstreams

pub check_path : Str → Option Str → Result ConfigError (Unit {0})
check_path route none = ok tt
check_path route (some path) =
    refuse (not (starts_with (lit "/") path))
      (route ++ (lit ": path must start with `/`, got `" ++ (path ++ lit "`")))

pub check_route : Str → RouteConfig → Result ConfigError (Unit {0})
unfolding check_upstreams check_path
check_route name route =
    refuse (is_empty route.upstream && not (is_some route.root))
      (name ++ lit ": requires an upstream or a root")
    >> refuse (not (is_empty route.upstream) && is_some route.root)
        (name ++ lit ": cannot set both upstream and root")
    >> check_upstreams name route.upstream
    >> check_path name route.path
    >> refuse (route.strip_prefix && not (is_some route.path))
        (name ++ lit ": strip_prefix requires a path")

pub check_routes : ℕ → List RouteConfig → Result ConfigError (Unit {0})
unfolding check_route show_uint
check_routes index [] = ok tt
check_routes index (route ∷ routes) =
    check_route (lit "route " ++ show_uint index) route >> check_routes (index + 1) routes

unfoldable pub validate : Config → Result ConfigError (Unit {0})
unfolding check_tls check_acme check_limits check_routes
validate config =
    refuse (is_empty config.routes) (lit "at least one [[route]] is required")
    >> check_tls config.tls
    >> refuse (is_some config.tls && is_some config.acme)
        (lit "[tls] and [acme] are mutually exclusive")
    >> check_acme config.acme
    >> refuse (is_some_and config.rate_limit (λ limit. limit.requests_per_second == 0))
        (lit "rate_limit.requests_per_second must be at least 1")
    >> refuse (is_some_and config.health_check (λ check. check.interval_seconds == 0))
        (lit "health_check.interval_seconds must be at least 1")
    >> check_limits config.limits
    >> refuse (is_some config.http3 && not (is_some config.tls) && not (is_some config.acme))
        (lit "[http3] requires a TLS certificate ([tls] or [acme])")
    >> refuse (is_some config.http && not (is_some config.tls) && not (is_some config.acme))
        (lit "[http] redirect requires a TLS certificate ([tls] or [acme])")
    >> refuse (is_some_and config.compression (λ compression. compression.level == 0))
        (lit "compression.level must be at least 1")
    >> refuse
        (is_some_and config.cache (λ cache. cache.max_entries == 0 || cache.max_body_bytes == 0))
        (lit "cache.max_entries and cache.max_body_bytes must be at least 1")
    >> check_routes 0 config.routes
