-- ===== src/Start/Machine.antt =====
-- crates/zaphyl/src/main.rs: what a start finds on its machine, and what runs behind it.
use zaphyl.Prelude.{ℕ, Bool, Option, List, Result}
use zaphyl.Str.{Str}
use zaphyl.Challenge.{ChallengeStore}
use zaphyl.Router.{Memory}
use zaphyl.Config.Types.{SocketAddr}
use zaphyl.HttpFront.{NonChallenge}
use zaphyl.Config.Load.{Toml}
use zaphyl.Cache.Store.{DiskTier}
use zaphyl.Cache.Disk.{DiskStore}
use zaphyl.Upstream.{Client}
use zaphyl.Proxy.Filter.Phase.{Outside}
use zaphyl.Http3.Request.{Front}
use zaphyl.Tls.Provider.{CertFiles}
use zaphyl.Acme.Order.{Authority, Writes}
use zaphyl.Start.Listeners.{ZaphylProxy}

-- The certificate and the key.
abbrev pub Paths : Type 0
Paths = Str × Str

-- What the challenges and the certificate are kept in.
abbrev pub Kept : Type 0
Kept = ChallengeStore × CertFiles

module _ (o : Outside) (D : Type 0) where
  -- The machine that the program starts on.
  pub record Machine : Type 0 where
    pub args : List Str
    pub acme_http_addr : Option SocketAddr
    -- Whether the front for plain HTTP can be bound to the address.
    pub binds : SocketAddr → Bool
    pub upstream_ca : Option Str
    pub parallelism : Option ℕ
    pub now : ℕ
    pub toml : Toml
    pub read : Str → Result Str Str
    pub site_files : Str → List (Str × Result Str Str)
    pub join : Str → Str → Str
    -- Whether the directory of the certificate can be made, and what comes of the order.
    pub made : Bool
    -- The front for plain HTTP that runs as the order is placed is what the authority can ask.
    pub ca : Option (SocketAddr × NonChallenge) → Authority
    pub writes : Writes
    pub build_client : Option Str → Client
    pub open_dir : Str → DiskStore → DiskTier D
    pub valid_uri : Str → Bool
    -- Whether the settings for TLS can be made.
    pub tls_settings : Bool
    pub memory : Memory

  pub record Server : Type 0 where
    pub grace_period_seconds : ℕ
    pub graceful_shutdown_timeout_seconds : ℕ
    pub threads : ℕ
    pub listen : SocketAddr
    pub tls : Option Paths
    pub metrics : Option SocketAddr
    pub proxy : ZaphylProxy o D

  pub record Http3 : Type 0 where
    pub listen : SocketAddr
    pub paths : Paths
    pub max_header_bytes : Option ℕ
    pub connect_timeout : Option ℕ
    pub compression_level : Option ℕ
    pub front : Front o D

  -- What runs behind a start.
  pub record Running : Type 0 where
    pub server : Server
    pub http3 : Option Http3
    pub probes : Option (List (Str × ℕ) × ℕ)
    pub memory : Memory
