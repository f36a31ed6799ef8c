-- ===== src/Config/Types.antt =====
-- crates/zaphyl-config/src/lib.rs: the configuration types. Deserialising TOML is the work of the
-- crates `toml` and `serde`; what they give is a value of these types.
use zaphyl.Prelude.{ℕ, ◌*◌, Bool, Option, List}
use zaphyl.Str.{Str, lit}
use zaphyl.HashMap.{HashMap}

-- `std::net::SocketAddr`: the bytes of the address, and the port.
pub record SocketAddr : Type 0 where
  pub ip : List ℕ
  pub port : ℕ

pub record TlsConfig : Type 0 where
  pub cert : Str
  pub key : Str

pub record MetricsConfig : Type 0 where
  pub listen : SocketAddr

pub record RateLimitConfig : Type 0 where
  pub requests_per_second : ℕ

pub record HealthCheckConfig : Type 0 where
  pub interval_seconds : ℕ

pub record CompressionConfig : Type 0 where
  pub level : ℕ

pub record PluginsConfig : Type 0 where
  pub global : List Str
  pub max_body_bytes : ℕ

abbrev pub default_plugin_max_body_bytes : ℕ
default_plugin_max_body_bytes = 1024 * 1024

pub record CacheConfig : Type 0 where
  pub max_entries : ℕ
  pub max_body_bytes : ℕ
  pub disk_path : Option Str

abbrev pub default_cache_max_entries : ℕ
default_cache_max_entries = 1024

abbrev pub default_cache_max_body_bytes : ℕ
default_cache_max_body_bytes = 1024 * 1024

pub record AccessConfig : Type 0 where
  pub allow : List Str
  pub deny : List Str

pub record LimitsConfig : Type 0 where
  pub max_request_body_bytes : Option ℕ
  pub max_request_header_bytes : Option ℕ
  pub upstream_connect_timeout_seconds : Option ℕ
  pub upstream_read_timeout_seconds : Option ℕ

pub record Http3Config : Type 0 where
  pub listen : SocketAddr

pub record HttpRedirectConfig : Type 0 where
  pub listen : SocketAddr

pub record AcmeConfig : Type 0 where
  pub domains : List Str
  pub email : Str
  pub directory : Str
  pub cache_dir : Str
  pub renew_before_days : ℕ
  pub check_interval_seconds : ℕ

abbrev pub default_acme_directory : Str
default_acme_directory = lit "https://acme-v02.api.letsencrypt.org/directory"

abbrev pub default_acme_cache_dir : Str
default_acme_cache_dir = lit "./acme"

abbrev pub default_renew_before_days : ℕ
default_renew_before_days = 30

abbrev pub default_acme_check_interval : ℕ
default_acme_check_interval = 12 * 60 * 60

pub record RouteConfig : Type 0 where
  pub host : Option Str
  pub path : Option Str
  pub upstream : List Str
  pub root : Option Str
  pub tls : Bool
  pub strip_prefix : Bool
  pub request_headers : HashMap Str
  pub response_headers : HashMap Str
  pub grpc : Bool
  pub plugins : List Str

pub record Config : Type 0 where
  pub listen : SocketAddr
  pub worker_threads : Option ℕ
  pub shutdown_grace_seconds : Option ℕ
  pub tls : Option TlsConfig
  pub acme : Option AcmeConfig
  pub metrics : Option MetricsConfig
  pub rate_limit : Option RateLimitConfig
  pub health_check : Option HealthCheckConfig
  pub limits : Option LimitsConfig
  pub access : Option AccessConfig
  pub compression : Option CompressionConfig
  pub cache : Option CacheConfig
  pub plugins : Option PluginsConfig
  pub http3 : Option Http3Config
  pub http : Option HttpRedirectConfig
  pub response_headers : HashMap Str
  pub routes : List RouteConfig

-- The text of an error stands for the error of the crate `toml`.
pub data ConfigError : Type 0 where
  toml : Str → ConfigError
  invalid : Str → ConfigError
