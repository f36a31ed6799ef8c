-- ===== src/Start/Main.antt =====
-- crates/zaphyl/src/main.rs, `main`, with `resolve_tls` and `build_server`: from the arguments to the
-- listeners, or to an exit code.
pub mod Exits
pub mod Denies
pub mod Answers
pub mod Obtains
pub mod Codes
use zaphyl.Prelude.{
  ℕ, Bool, true, false, Option, none, some, List, [], ◌∷◌, option_map, is_some, unwrap_or,
  if◌then◌else◌, Result, ok, err, try,
}
use zaphyl.Str.{Str, lit}
use zaphyl.Access.{AccessControl, parse}
use zaphyl.Challenge
use zaphyl.Challenge.{ChallengeStore}
use zaphyl.Router.{Memory, Router, health_probes}
use zaphyl.Config.Types.{
  SocketAddr, AcmeConfig, AccessConfig, Config, ConfigError, MetricsConfig, HealthCheckConfig,
  TlsConfig, Http3Config,
}
use zaphyl.Config.Load.{Toml, load}
use zaphyl.Cache.Store.{DiskTier}
use zaphyl.Cache.Disk.{DiskStore}
use zaphyl.Plugin
use zaphyl.Plugin.{Plugins}
use zaphyl.Upstream.{Client}
use zaphyl.Proxy.Building.{build_router}
use zaphyl.Proxy.Filter.Phase.{Outside}
use zaphyl.Http3.Request.{Front}
use zaphyl.HttpFront.{NonChallenge}
use zaphyl.Tls.Provider.{CertFiles}
use zaphyl.Acme.Order.{Authority, Writes, Obtained, start}
use zaphyl.Cli.Commands.{Command, run, reload, site, SiteCmd, run_reload, Cli}
use zaphyl.Start.Front.{http_front, config_path_from_args}
use zaphyl.Start.Machine.{Paths, Kept, Machine, Server, Http3, Running}
use zaphyl.Start.Listeners.{
  Cache, cache_of, limit_of, limits_of, ZaphylProxy, new, caching_of, front_with,
}

-- A failure that ends the program.
abbrev pub or_exit {ℓ} : {E : Type 0} {A : Type ℓ} → Result E A → Result ℕ A
or_exit (ok a) = ok a
or_exit (err e) = err 1

module _ (o : Outside) (D : Type 0) where
  abbrev pub started : AcmeConfig → Machine o D → Obtained → Result ℕ (Option Paths) × Kept
  started acme machine (err e, kept) = (err 1, kept)
  started acme machine (ok done, kept) = (
    ok (
        some (
          machine.join acme.cache_dir (lit "cert.pem"),
          machine.join acme.cache_dir (lit "key.pem"),
        )),
    kept,
  )

  abbrev pub HttpFront : Type 0
  HttpFront = Option (SocketAddr × NonChallenge)

  abbrev pub from_acme :
      Option AcmeConfig → Machine o D → HttpFront → Kept → Result ℕ (Option Paths) × Kept
  from_acme none machine front kept = (ok none, kept)
  from_acme (some acme) machine front kept =
      started acme machine (start machine.made (machine.ca front) machine.writes kept)

  abbrev pub tls_or_acme :
      Option TlsConfig
      → Option AcmeConfig
      → Machine o D
      → HttpFront
      → Kept
      → Result ℕ (Option Paths) × Kept
  tls_or_acme (some tls) acme machine front kept = (ok (some (tls.cert, tls.key)), kept)
  tls_or_acme none acme machine front kept = from_acme acme machine front kept

  unfoldable pub resolve_tls :
      Config → Machine o D → HttpFront → Kept → Result ℕ (Option Paths) × Kept
  resolve_tls config machine front kept = tls_or_acme config.tls config.acme machine front kept

  unfoldable pub access_of : Option AccessConfig → Result ℕ (AccessControl (o.ip))
  access_of none = ok (record { allow = []; deny = [] })
  access_of (some a) = or_exit (parse o.ip a.allow a.deny)

  abbrev pub with_listener : Machine o D → Option Paths → Server o D → Result Str (Server o D)
  with_listener machine none server = ok server
  with_listener machine (some paths) server =
      if machine.tls_settings then ok server else err (lit "tls settings")

  abbrev pub server_with :
      Config
      → Machine o D
      → Option Paths
      → Router
      → AccessControl (o.ip)
      → Option (Cache D)
      → Option (Plugins (o.wasm))
      → Server o D
  server_with config machine tls router access cache plugins = record {
    grace_period_seconds = unwrap_or config.shutdown_grace_seconds 5;
    graceful_shutdown_timeout_seconds = 3;
    threads = unwrap_or config.worker_threads (unwrap_or machine.parallelism 1);
    listen = config.listen;
    tls = tls;
    metrics = option_map (λ m. m.listen) config.metrics;
    proxy =
        new o D machine.build_client machine.upstream_ca machine.now config (is_some tls) router
          access cache plugins;
  }

  unfoldable pub build_server :
      Config
      → Machine o D
      → Option Paths
      → Router
      → AccessControl (o.ip)
      → Option (Cache D)
      → Option (Plugins (o.wasm))
      → Result Str (Server o D)
  build_server config machine tls router access cache plugins =
      with_listener machine tls (server_with config machine tls router access cache plugins)

  -- The listener for HTTP/3 needs both its section and a certificate.
  abbrev pub http3_of :
      Config
      → Machine o D
      → Router
      → AccessControl (o.ip)
      → Option (Cache D)
      → Option (Plugins (o.wasm))
      → Option Http3Config
      → Option Paths
      → Option (Http3 o D)
  http3_of config machine router access cache plugins none tls = none
  http3_of config machine router access cache plugins (some http3) none = none
  http3_of config machine router access cache plugins (some http3) (some paths) = some (record {
    listen = http3.listen;
    paths = paths;
    max_header_bytes = limit_of (λ l. l.max_request_header_bytes) config;
    connect_timeout = limit_of (λ l. l.upstream_connect_timeout_seconds) config;
    compression_level = option_map (λ c. c.level) config.compression;
    front =
        front_with o D machine.valid_uri router (limits_of config) access
          (caching_of o D machine.build_client machine.upstream_ca config cache) plugins;
  })

  abbrev pub probes_for : Option HealthCheckConfig → Router → Option (List (Str × ℕ) × ℕ)
  probes_for check router = option_map (λ c. (health_probes router, c.interval_seconds)) check

  abbrev pub running_with :
      Config
      → Machine o D
      → Option Paths
      → Router × Memory
      → AccessControl (o.ip)
      → Option (Plugins (o.wasm))
      → Server o D
      → Running o D
  running_with config machine tls (router, memory) access plugins server = record {
    server = server;
    http3 =
        http3_of config machine router access (cache_of machine.open_dir config) plugins
          config.http3 tls;
    probes = probes_for config.health_check router;
    memory = memory;
  }

  unfoldable pub listeners :
      Config
      → Machine o D
      → Option Paths
      → Router × Memory
      → AccessControl (o.ip)
      → Option (Plugins (o.wasm))
      → Result ℕ (Running o D)
  unfolding build_server
  listeners config machine tls (router, memory) access plugins =
      try
        (or_exit (
          build_server config machine tls router access (cache_of machine.open_dir config) plugins))
        (λ server. ok (running_with config machine tls (router, memory) access plugins server))

  unfoldable pub plugins_of : Config → Result ℕ (Option (Plugins (o.wasm)))
  plugins_of config =
      or_exit (Plugin.build o.wasm config (limit_of (λ l. l.upstream_read_timeout_seconds) config))

  -- From the certificate on.
  unfoldable pub run_with : Config → Machine o D → Option Paths → Result ℕ (Running o D)
  unfolding access_of plugins_of listeners
  run_with config machine tls = try (access_of config.access) (λ access.
      try (plugins_of config)
        (listeners config machine tls (build_router config machine.memory) access))

  -- The thread of the front ends with a message if its address cannot be bound, and the start goes on.
  abbrev pub spawned : Machine o D → HttpFront → HttpFront
  spawned machine none = none
  spawned machine (some front) = if machine.binds front.0 then some front else none

  -- The front for plain HTTP that runs; how the start ends; and what is kept.
  pub record Launch : Type 0 where
    pub http_front : HttpFront
    pub ended : Result ℕ (Running o D)
    pub kept : Kept

  abbrev pub behind : Config → Machine o D → HttpFront → Result ℕ (Option Paths) × Kept → Launch
  behind config machine front (tls, kept) = record {
    http_front = front;
    ended = try tls (run_with config machine);
    kept = kept;
  }

  -- The front is started first, and the certificate is asked for with it.
  abbrev pub launch : Machine o D → CertFiles → Result ConfigError Config → Launch
  launch machine files (err e) = record {
    http_front = none;
    ended = err 1;
    kept = (Challenge.new, files);
  }
  launch machine files (ok config) =
      let front = spawned machine (http_front config machine.acme_http_addr) in
      behind config machine front (resolve_tls config machine front (Challenge.new, files))

  abbrev pub launch_at : Machine o D → CertFiles → Option Str → Launch
  launch_at machine files none = record {
    http_front = none;
    ended = err 2;
    kept = (Challenge.new, files);
  }
  launch_at machine files (some path) =
      launch machine files (load machine.toml path (machine.read path) (machine.site_files path))

  -- `parsed.config.or_else(config_path_from_args)`.
  abbrev pub config_path : Machine o D → Option Str → Option Str
  config_path machine none = config_path_from_args machine.args
  config_path machine (some path) = some path

  abbrev pub exits : CertFiles → ℕ → Launch
  exits files code = record { http_front = none; ended = err code; kept = (Challenge.new, files) }

  abbrev pub on_command :
      {P : Type 0}
      → (SiteCmd P → ℕ)
      → Machine o D
      → CertFiles
      → Option Str
      → Option (Command P)
      → Launch
  on_command run_site machine files config (some (site cmd)) = exits files (run_site cmd)
  on_command run_site machine files config (some reload) = exits files run_reload
  on_command run_site machine files config (some run) =
      launch_at machine files (config_path machine config)
  on_command run_site machine files config none =
      launch_at machine files (config_path machine config)

  unfoldable pub main : {P : Type 0} → (SiteCmd P → ℕ) → Machine o D → CertFiles → Cli P → Launch
  unfolding run_with resolve_tls
  main run_site machine files cli = on_command run_site machine files cli.config cli.command
