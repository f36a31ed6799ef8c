-- ===== src/Examples/Starting.antt =====
-- A start with a certificate of its own and rules for access; a start that asks for a certificate; a wait.
use zaphyl.Prelude.{
  ℕ, ◌≡◌, ◌≢◌, ◌⊎◌, refl, Bool, true, false, none, some, Option, [], ◌∷◌, ◌++◌, ok, err, ◌==◌,
}
use zaphyl.Str.{Str, lit, str_eq}
use zaphyl.Access.{IpLib, AccessControl, allows}
use zaphyl.Config.Types.{Config, ConfigError, SocketAddr, AccessConfig}
use zaphyl.Proxy.Filter.{respond_error}
use zaphyl.Proxy.Filter.Phase
use zaphyl.Proxy.Filter.Phase.{Outside, Session, request_filter}
use zaphyl.HttpFront.{NonChallenge, not_found, respond}
use zaphyl.Http3.Request
use zaphyl.Http3.Request.{Arrival, proxy_request, answer}
use zaphyl.Http3.Serving.{bare}
use zaphyl.Tls.Provider.{CertFiles}
use zaphyl.Acme.{pending, Authorization}
use zaphyl.Challenge.{ChallengeStore}
use zaphyl.Start.Front.{any_interface}
use zaphyl.Start.Main.Obtains.{Issues, launch-obtains}
use zaphyl.Acme.Order.{Authority, Polled, Writes}
use zaphyl.Start.Bound.{Attempts, Waited, wait_bound, probe_of}
use zaphyl.Start.Bound.Ends.{IsEnd, wait_bound_lem}
use zaphyl.Start.Machine.{Machine, Running, Http3, Paths}
use zaphyl.Start.Listeners.{filter_of, cache_of, front_with, limits_of, caching_of}
use zaphyl.Start.Main.{launch, launch_at, run_with, http3_of, running_with, server_with}
use zaphyl.Start.Main.Denies.{launch-denies}
use zaphyl.Start.Main.Codes.{launch_at-code}
use zaphyl.Examples.Plugins.{http, challenge}
use zaphyl.Examples.Configuration.{main, certificates}
use zaphyl.Proxy.Building.{build_router}
use zaphyl.Examples.Requests.{outside, memory, confirming}

abbrev unanswered : Attempts
unanswered = record { connects = λ probe i. i == 3; takes = λ i. 1000000; oversleeps = λ i. 0 }

wait_bound_lem_example :
    (r : Waited) × (wait_bound unanswered (record { ip = 0 ∷ 0 ∷ 0 ∷ 0 ∷ []; port = 80 }) ≡ some r)
    × IsEnd unanswered (probe_of (record { ip = 0 ∷ 0 ∷ 0 ∷ 0 ∷ []; port = 80 })) r
wait_bound_lem_example = wait_bound_lem unanswered (record { ip = 0 ∷ 0 ∷ 0 ∷ 0 ∷ []; port = 80 })

-- The authority asks the front that runs for the one challenge of its order.
abbrev validates : Option (SocketAddr × NonChallenge) → ChallengeStore → Bool
validates none store = false
validates (some front) store = str_eq (respond http challenge store front.1).body (lit "t.key")

abbrev ordered : Option (SocketAddr × NonChallenge) → Option Authorization
ordered front = some (record {
  status = pending;
  challenge = some (lit "t", lit "t.key");
  set_ready = validates front;
})

abbrev authority : Option (SocketAddr × NonChallenge) → Authority
authority front = record {
  account = true;
  new_order = some (ordered front ∷ []);
  polled = λ store. Polled.ready;
  finalized = some (lit "key");
  certificate = some (lit "cert");
}

abbrev machine : Machine outside (Unit {0})
machine = record {
  args = lit "zaphyl" ∷ [];
  acme_http_addr = none;
  binds = λ addr. true;
  upstream_ca = none;
  parallelism = some 4;
  now = 0;
  toml = record {
    parse_config = λ text. ok main;
    parse_site = λ text. err (ConfigError.invalid (lit "no site"));
  };
  read = λ path. err (lit "not found");
  site_files = λ path. [];
  join = λ dir name. dir ++ (lit "/" ++ name);
  made = true;
  ca = authority;
  writes = record { at = 1; cert = true; key = true; cert_left = none; key_left = none };
  build_client = λ ca. confirming;
  open_dir = λ dir store. record { read = λ key d. (none, d); write = λ key entry d. d };
  valid_uri = λ uri. true;
  tls_settings = true;
  memory = memory;
}

abbrev no_files : CertFiles
no_files = record { cert = none; key = none }

abbrev file : Option Str
file = some (lit "zaphyl.toml")

abbrev failed : ℕ
failed = 1

launch_at-code_example : ((file ≡ none) × (failed ≡ 2)) ⊎ ((file ≢ none) × (failed ≡ 1))
unfolding zaphyl.Config.Load.load
launch_at-code_example = launch_at-code outside (Unit {0}) machine no_files file 1 refl

abbrev no_rules : AccessControl (outside.ip)
no_rules = record { allow = []; deny = [] }

abbrev obtained : Option Paths
obtained = some (lit "./acme/cert.pem", lit "./acme/key.pem")

abbrev certified : Running outside (Unit {0})
certified =
    running_with outside (Unit {0}) main machine obtained (build_router main memory) no_rules none (
      server_with outside (Unit {0}) main machine obtained (build_router main memory).0 no_rules
        (cache_of machine.open_dir main) none)

abbrev plain_front : SocketAddr × NonChallenge
plain_front = (any_interface, not_found)

-- Such an authority issues.
issues : Issues http not_found (authority (some plain_front)) (lit "cert") (lit "key")
unfolding zaphyl.Str.contains str_eq
issues = record {
  results = ordered (some plain_front) ∷ [];
  account = refl;
  order = refl;
  fair = ((refl, refl, λ store gives. rw (gives challenge refl) refl), tt);
  polled = λ store. refl;
  finalized = refl;
  certificate = refl;
}

launch-obtains_example :
    ((launch outside (Unit {0}) machine no_files (ok main)).kept.1
      ≡ record { cert = some (1, lit "cert"); key = some (lit "key") })
    × ((launch outside (Unit {0}) machine no_files (ok main)).ended
        ≡ run_with outside (Unit {0}) main machine obtained)
unfolding zaphyl.Start.Front.http_front
launch-obtains_example =
    launch-obtains outside (Unit {0}) machine no_files main certificates http plain_front
      (lit "cert") (lit "key") refl refl refl refl refl refl refl refl issues

-- A network that holds every address.
abbrev everyone : IpLib
everyone = record {
  IpAddr = ℕ;
  IpNet = Bool;
  parse_net = λ s. some true;
  parse_ip = λ s. none;
  is_ipv4 = λ ip. true;
  net_new = λ ip prefix. none;
  net_contains = λ net ip. net;
}

abbrev guarded : Outside
guarded = record outside { ip = everyone; show_ip = λ ip. ip ∷ [] }

abbrev closed : AccessConfig
closed = record { allow = []; deny = lit "0.0.0.0/0" ∷ [] }

abbrev config : Config
config = record main {
  tls = some (record { cert = lit "cert.pem"; key = lit "key.pem" });
  acme = none;
  access = some closed;
  http3 = some (record { listen = record { ip = []; port = 443 } });
}

abbrev host : Machine guarded (Unit {0})
host = record {
  args = lit "zaphyl" ∷ [];
  acme_http_addr = none;
  binds = λ addr. true;
  upstream_ca = none;
  parallelism = some 4;
  now = 0;
  toml = machine.toml;
  read = machine.read;
  site_files = machine.site_files;
  join = machine.join;
  made = true;
  ca = authority;
  writes = machine.writes;
  build_client = machine.build_client;
  open_dir = machine.open_dir;
  valid_uri = machine.valid_uri;
  tls_settings = true;
  memory = memory;
}

abbrev rules : AccessControl (guarded.ip)
rules = record { allow = []; deny = true ∷ [] }

abbrev own : Option Paths
own = some (lit "cert.pem", lit "key.pem")

abbrev both : Running guarded (Unit {0})
both =
    running_with guarded (Unit {0}) config host own (build_router config memory) rules none (
      server_with guarded (Unit {0}) config host own (build_router config memory).0 rules none none)

abbrev over_udp : Http3 guarded (Unit {0})
over_udp = record {
  listen = record { ip = []; port = 443 };
  paths = (lit "cert.pem", lit "key.pem");
  max_header_bytes = none;
  connect_timeout = none;
  compression_level = none;
  front =
      front_with guarded (Unit {0}) host.valid_uri (build_router config memory).0 (limits_of config)
        rules (caching_of guarded (Unit {0}) host.build_client none config none) none;
}

launch-denies_example :
    ((s : Session guarded) (w : Phase.World (Unit {0}))
      → s.client_ip ≡ some 7
      → (request_filter guarded (Unit {0}) (filter_of guarded (Unit {0}) both.server.proxy) s w).0
        ≡ ok (some (respond_error 403)))
    × ((a : Arrival guarded) (w : Request.World (Unit {0}))
        → a.client_ip ≡ 7
        → proxy_request guarded (Unit {0}) over_udp.front a w ≡ (ok (answer (bare 403)), w))
unfolding run_with zaphyl.Access.parse zaphyl.Start.Main.resolve_tls zaphyl.Access.parse_nets
    zaphyl.Access.parse_net zaphyl.Plugin.build cache_of allows
launch-denies_example =
    launch-denies guarded (Unit {0}) host no_files config both over_udp closed rules 7 refl refl
      refl refl refl
