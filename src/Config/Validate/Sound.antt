-- ===== src/Config/Validate/Sound.antt =====
-- Which configurations pass validation, against a predicate that does not run the checks.
use zaphyl.Prelude.{
  ◌++◌, ap, not, ◌&&◌, ◌+◌, is_empty, Option-cases, ℕ, ◌^◌, ◌<◌, Bool, true, false, ◌≡◌, ◌≢◌, ◌⊎◌,
  inl, inr, refl, Option, none, some, List, [], ◌∷◌, any, All, arith, is_some, Result, ok, err,
}
use zaphyl.Str.{lit, strip_prefix, starts_with, Str, trim, rsplit_once, parse_uint}
use zaphyl.Config.Types.{
  Config, RateLimitConfig, HealthCheckConfig, CompressionConfig, CacheConfig, TlsConfig,
  LimitsConfig, AcmeConfig, RouteConfig, ConfigError,
}
use zaphyl.Config.Validate.{
  show_uint, validate, valid_upstream, check_upstreams, check_routes, check_route, check_path, ◌>>◌,
  refuse, is_blank, is_zero, check_tls, check_acme, check_limits, is_host_port,
}

abbrev pub NotBlank : Str → Type 0
NotBlank s = trim s ≢ []

abbrev pub IsTls : Option TlsConfig → Type 0
IsTls none = Unit
IsTls (some tls) = NotBlank tls.cert × NotBlank tls.key

abbrev pub IsAcme : Option AcmeConfig → Type 0
IsAcme none = Unit
IsAcme (some acme) =
    (acme.domains ≢ [])
    × All NotBlank acme.domains
    × NotBlank acme.email
    × (0 < acme.renew_before_days)
    × (0 < acme.check_interval_seconds)

abbrev pub IsLimits : Option LimitsConfig → Type 0
IsLimits none = Unit
IsLimits (some limits) =
    (limits.max_request_body_bytes ≢ some 0)
    × (limits.upstream_connect_timeout_seconds ≢ some 0)
    × (limits.upstream_read_timeout_seconds ≢ some 0)

-- A host that is not empty, and behind the last colon a port of 16 bits.
abbrev pub IsHostPort : Str → Type 0
IsHostPort upstream =
    (host : Str) × (port : Str) × (n : ℕ) × (rsplit_once b':' (trim upstream) ≡ some (host, port))
    × (host ≢ [])
    × (parse_uint (2 ^ 16) port ≡ some n)

abbrev pub IsPath : Option Str → Type 0
IsPath none = Unit
IsPath (some path) = (rest : Str) × (path ≡ b'/' ∷ rest)

-- Either upstreams or a root, well-formed addresses, an absolute path, and a path to strip.
pub record IsRoute (r : RouteConfig) : Type 0 where
  pub one_source :
      ((r.upstream ≢ []) × (r.root ≡ none)) ⊎ ((r.upstream ≡ []) × (is_some r.root ≡ true))
  pub addresses : All IsHostPort r.upstream
  pub absolute : IsPath r.path
  pub strippable : r.strip_prefix ≡ true → is_some r.path ≡ true

seq : (a b : Result ConfigError (Unit {0})) → (a >> b) ≡ ok tt → (a ≡ ok tt) × (b ≡ ok tt)
seq (ok tt) b h = (refl, h)
seq (err e) b h = cc

seq_back : (a b : Result ConfigError (Unit {0})) → a ≡ ok tt → b ≡ ok tt → (a >> b) ≡ ok tt
seq_back (ok tt) b h k = k
seq_back (err e) b h k = cc

refuse→ : (failed : Bool) (message : Str) → refuse failed message ≡ ok tt → failed ≡ false
unfolding refuse
refuse→ true message h = cc
refuse→ false message h = refl

→refuse : (failed : Bool) (message : Str) → failed ≡ false → refuse failed message ≡ ok tt
unfolding refuse
→refuse failed message h = rw h refl

is_blank→ : (s : Str) → is_blank s ≡ false → NotBlank s
is_blank→ s h e = cc (rw e at h)

check_tls→ : (tls : Option TlsConfig) → check_tls tls ≡ ok tt → IsTls tls
unfolding check_tls
check_tls→ none h = tt
check_tls→ (some tls) h =
    let b = refuse→ _ _ h in (is_blank→ tls.cert (ground arith), is_blank→ tls.key (ground arith))

no_blank : (ds : List Str) → any is_blank ds ≡ false → All NotBlank ds
no_blank [] h = tt
no_blank (d ∷ ds) h = (is_blank→ d (ground arith), no_blank ds (ground arith))

check_acme→ : (acme : Option AcmeConfig) → check_acme acme ≡ ok tt → IsAcme acme
unfolding check_acme
check_acme→ none h = tt
check_acme→ (some acme) h =
    let (h₃, interval) = seq _ _ h in
    let (h₂, renew) = seq _ _ h₃ in
    let (domains, email) = seq _ _ h₂ in
    let some_domain = refuse→ _ _ domains in
    let days = refuse→ _ _ renew in
    let seconds = refuse→ _ _ interval in
    (
      λ e. cc (rw e at some_domain),
      no_blank acme.domains (ground arith),
      is_blank→ acme.email (refuse→ _ _ email),
      ground arith,
      ground arith,
    )

is_zero→ : (o : Option ℕ) → is_zero o ≡ false → o ≢ some 0
is_zero→ o h e = cc (rw e at h)

check_limits→ : (limits : Option LimitsConfig) → check_limits limits ≡ ok tt → IsLimits limits
unfolding check_limits
check_limits→ none h = tt
check_limits→ (some limits) h =
    let (body, timeouts) = seq _ _ h in
    let b = refuse→ _ _ timeouts in
    (
      is_zero→ limits.max_request_body_bytes (refuse→ _ _ body),
      is_zero→ limits.upstream_connect_timeout_seconds (ground arith),
      is_zero→ limits.upstream_read_timeout_seconds (ground arith),
    )

host_port→ :
    (o : Option (Str × Str))
    → is_host_port o ≡ true
    → (host : Str) × (port : Str) × (n : ℕ) × (o ≡ some (host, port))
      × (host ≢ [])
      × (parse_uint (2 ^ 16) port ≡ some n)
unfolding is_host_port
host_port→ none h = cc
host_port→ (some (host, port)) h = elim (Option-cases (parse_uint (2 ^ 16) port)) [
  | inl e ↦ absurd (ground arith)
  | inr (n, e) ↦ (host, port, n, refl, λ e'. cc (rw e' at h), e)
]

upstreams→ :
    (route : Str) (upstreams : List Str)
    → check_upstreams route upstreams ≡ ok tt
    → All IsHostPort upstreams
unfolding check_upstreams valid_upstream
upstreams→ route [] h = tt
upstreams→ route (u ∷ us) h =
    let (first, others) = seq _ _ h in
    let valid = refuse→ _ _ first in
    (host_port→ (rsplit_once b':' (trim u)) (ground arith), upstreams→ route us others)

path→ : (route : Str) (path : Option Str) → check_path route path ≡ ok tt → IsPath path
unfolding check_path starts_with strip_prefix
path→ route none h = tt
path→ route (some []) h = absurd (ground (arith, refuse→ _ _ h))
path→ route (some (c ∷ path)) h =
    let slash = refuse→ _ _ h in (path, ap (λ x. x ∷ path) (ground arith))

sources :
    (upstream : List Str) (root : Option Str)
    → (is_empty upstream && not (is_some root)) ≡ false
    → (not (is_empty upstream) && is_some root) ≡ false
    → ((upstream ≢ []) × (root ≡ none)) ⊎ ((upstream ≡ []) × (is_some root ≡ true))
sources [] none h k = cc
sources [] (some r) h k = inr (refl, refl)
sources (u ∷ us) none h k = inl (λ e. cc, refl)
sources (u ∷ us) (some r) h k = cc

route→ : (name : Str) (r : RouteConfig) → check_route name r ≡ ok tt → IsRoute r
unfolding check_route
route→ name r h =
    let (h₄, strip) = seq _ _ h in
    let (h₃, path) = seq _ _ h₄ in
    let (h₂, upstreams) = seq _ _ h₃ in
    let (some_source, one) = seq _ _ h₂ in
    record {
      one_source = sources r.upstream r.root (refuse→ _ _ some_source) (refuse→ _ _ one);
      addresses = upstreams→ name r.upstream upstreams;
      absolute = path→ name r.path path;
      strippable = let b = refuse→ _ _ strip in λ e. ground arith;
    }

routes→ :
    (index : ℕ) (routes : List RouteConfig) → check_routes index routes ≡ ok tt → All IsRoute routes
unfolding check_routes
routes→ index [] h = tt
routes→ index (r ∷ routes) h =
    let (first, others) = seq _ _ h in
    (route→ (lit "route " ++ show_uint index) r first, routes→ (index + 1) routes others)

-- What validation promises of a configuration.
pub record IsValid (c : Config) : Type 0 where
  pub some_route : c.routes ≢ []
  pub tls : IsTls c.tls
  pub one_certificate : (c.tls ≡ none) ⊎ (c.acme ≡ none)
  pub acme : IsAcme c.acme
  pub rate_limit : (l : RateLimitConfig) → c.rate_limit ≡ some l → 0 < l.requests_per_second
  pub health_check : (k : HealthCheckConfig) → c.health_check ≡ some k → 0 < k.interval_seconds
  pub limits : IsLimits c.limits
  pub secure_http3 : is_some c.http3 ≡ true → (is_some c.tls ≡ true) ⊎ (is_some c.acme ≡ true)
  pub secure_redirect : is_some c.http ≡ true → (is_some c.tls ≡ true) ⊎ (is_some c.acme ≡ true)
  pub compression : (k : CompressionConfig) → c.compression ≡ some k → 0 < k.level
  pub cache : (k : CacheConfig) → c.cache ≡ some k → (0 < k.max_entries) × (0 < k.max_body_bytes)
  pub routes : All IsRoute c.routes

not_both :
    {A B : Type 0} (a : Option A) (b : Option B)
    → (is_some a && is_some b) ≡ false
    → (a ≡ none) ⊎ (b ≡ none)
not_both none b h = inl refl
not_both (some a) none h = inr refl
not_both (some a) (some b) h = cc

-- A configuration that `validate` accepts has a route, at most one source of certificates, whole
-- tables for TLS and ACME, no zero where one stops the service, encryption where HTTP/3 or the
-- redirect need it, and routes that each have one source, `host:port` addresses with a 16-bit port,
-- and a path that starts with a slash.
pub validate-IsValid : (c : Config) → validate c ≡ ok tt → IsValid c
unfolding validate
validate-IsValid c h =
    let (h₁₁, routes) = seq _ _ h in
    let (h₁₀, cache) = seq _ _ h₁₁ in
    let (h₉, compression) = seq _ _ h₁₀ in
    let (h₈, redirect) = seq _ _ h₉ in
    let (h₇, http3) = seq _ _ h₈ in
    let (h₆, limits) = seq _ _ h₇ in
    let (h₅, health) = seq _ _ h₆ in
    let (h₄, rate) = seq _ _ h₅ in
    let (h₃, acme) = seq _ _ h₄ in
    let (h₂, one) = seq _ _ h₃ in
    let (route, tls) = seq _ _ h₂ in
    let some_route = refuse→ _ _ route in
    let some_rate = refuse→ _ _ rate in
    let some_health = refuse→ _ _ health in
    let some_http3 = refuse→ _ _ http3 in
    let some_redirect = refuse→ _ _ redirect in
    let some_level = refuse→ _ _ compression in
    let some_size = refuse→ _ _ cache in
    record {
      some_route = λ e. cc (rw e at some_route);
      tls = check_tls→ c.tls tls;
      one_certificate = not_both c.tls c.acme (refuse→ _ _ one);
      acme = check_acme→ c.acme acme;
      rate_limit = λ l e. ground (arith, rw e at some_rate);
      health_check = λ k e. ground (arith, rw e at some_health);
      limits = check_limits→ c.limits limits;
      secure_http3 = λ e. ground arith;
      secure_redirect = λ e. ground arith;
      compression = λ k e. ground (arith, rw e at some_level);
      cache = λ k e. ground (arith, rw e at some_size);
      routes = routes→ 0 c.routes routes;
    }
