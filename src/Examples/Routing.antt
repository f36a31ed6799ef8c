-- ===== src/Examples/Routing.antt =====
-- Two targets behind the prefix `/api`, of which the second is up.
use zaphyl.Prelude.{
  Bool, ℕ, ◌+◌, ◌%◌, true, false, ◌≡◌, ◌↔◌, inl, inr, refl, none, some, List, [], ◌∷◌, ◌++◌, ◌==◌,
  arith, length, get_elem?, All, Some,
}
use zaphyl.Str.{str_eq, Str, lit}
use zaphyl.Router.{
  Memory, Target, Route, Router, is_healthy, next_target, path_matches, path_under_prefix,
  rewrite_path, match_route, health_probes,
}
use zaphyl.Router.Matching.{Fits, match_route_iff}
use zaphyl.Router.Balance.{picks, picks-rotate}
use zaphyl.Router.Interleaved.{next_target_among, next_target_among-healthy}
use zaphyl.Router.Health.{Network, reaches, spawn_health_prober}
use zaphyl.Config.Types.{RouteConfig, Config}
use zaphyl.Proxy.Building.{build_router}
use zaphyl.Proxy.Building.Probed.{build_router-health}
use zaphyl.Proxy.Forwarding.{Http, RequestHeader}

abbrev target_at : Str → ℕ → Target
target_at address cell = record {
  address = address;
  tls = false;
  sni = [];
  h2 = false;
  healthy = cell;
}

abbrev first : Target
first = target_at (lit "10.0.0.1:80") 0

abbrev second : Target
second = target_at (lit "10.0.0.2:80") 1

abbrev pool : Route
pool = record {
  host = none;
  path_prefix = some (lit "/api/");
  targets = first ∷ second ∷ [];
  strip_prefix = true;
  request_headers = [];
  response_headers = [];
  static_dir = none;
  id = 0;
  next = 0;
}

abbrev one_down : Memory
one_down = record { flags = λ n. n == 1; counters = λ n. 0; free_flag = 2; free_counter = 1 }

abbrev all_up : Memory
all_up = record { flags = λ n. true; counters = λ n. 0; free_flag = 2; free_counter = 1 }

abbrev front : Router
front = record { routes = pool ∷ [] }

-- Each time that another thread runs, the target that was down comes up.
abbrev probing : ℕ → Memory → Memory
probing step m = record m { flags = λ n. true }

next_target_among-healthy_example :
    (t : Target) × ((next_target_among probing pool one_down).0 ≡ some t)
    × (is_healthy (next_target_among probing pool one_down).1 t ≡ true)
    × Some (λ t'. t' ≡ t) pool.targets
unfolding is_healthy
next_target_among-healthy_example =
    next_target_among-healthy probing pool (λ step m. refl) (λ step m t h. refl) (omega arith)
      one_down (omega arith) (inr (inl refl))

picks-rotate_example :
    get_elem? (picks 3 pool all_up) 1
    ≡ some (get_elem? pool.targets ((all_up.counters pool.next + 1) % length pool.targets))
unfolding is_healthy
picks-rotate_example =
    picks-rotate pool all_up 3 1 (omega arith) (refl, (refl, tt)) (omega arith) (omega arith)

match_route_iff_example : (match_route front none (lit "/api/users") ≡ some pool) ↔ (
    (before : List Route) × (after : List Route) × (front.routes ≡ before ++ pool ∷ after)
    × Fits none (lit "/api/users") pool
    × All (λ r'. ¬ Fits none (lit "/api/users") r') before)
match_route_iff_example = match_route_iff front none (lit "/api/users") pool

abbrev two_upstreams : RouteConfig
two_upstreams = record {
  host = none;
  path = none;
  upstream = lit "10.0.0.1:80" ∷ lit "10.0.0.1:80" ∷ [];
  root = none;
  tls = false;
  strip_prefix = false;
  request_headers = [];
  response_headers = [];
  grpc = false;
  plugins = [];
}

abbrev plain : Config
plain = record {
  listen = record { ip = []; port = 80 };
  worker_threads = none;
  shutdown_grace_seconds = none;
  tls = none;
  acme = none;
  metrics = none;
  rate_limit = none;
  health_check = none;
  limits = none;
  access = none;
  compression = none;
  cache = none;
  plugins = none;
  http3 = none;
  http = none;
  response_headers = [];
  routes = two_upstreams ∷ [];
}

-- The first target that the configuration gives.
abbrev built_target : Target
built_target = record {
  address = lit "10.0.0.1:80";
  tls = false;
  sni = lit "10.0.0.1";
  h2 = false;
  healthy = 2;
}

-- Every name has one address, and none answers but the second.
abbrev network : Network Bool
network = record {
  to_socket_addrs = λ address. some (str_eq address (lit "10.0.0.2:80") ∷ []);
  connects = λ answers. answers;
}

build_router-health_example :
    is_healthy
      (spawn_health_prober
        (((network, λ m. m) ∷ []) ++ (network, λ m. m) ∷ [])
        (health_probes (build_router plain one_down).0)
        all_up)
      built_target
    ≡ false
unfolding build_router zaphyl.Router.with_headers zaphyl.Router.with_strip_prefix
    zaphyl.Router.with_id zaphyl.Router.new_route zaphyl.Router.with_h2 zaphyl.Router.new_target
    zaphyl.Str.rsplit_once reaches zaphyl.Str.str_eq
build_router-health_example =
    build_router-health plain one_down all_up ((network, λ m. m) ∷ []) network (λ m. m) built_target
      (inl (inl refl))

abbrev echo : Http
echo = record { parse_header = λ name value. some (name, some value); parse_uri = λ uri. none }

abbrev spoofed : RequestHeader
spoofed = record {
  method = lit "GET";
  path = lit "/";
  query = none;
  headers = (lit "x-forwarded-proto", some (lit "https")) ∷ [];
}
