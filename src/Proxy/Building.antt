-- ===== src/Proxy/Building.antt =====
-- crates/zaphyl/src/main.rs, `build_router`: the router of a configuration.
pub mod Probed
use zaphyl.Prelude.{ℕ, ◌+◌, Option, none, some, List, [], ◌∷◌}
use zaphyl.Str.{Str, rsplit_once}
use zaphyl.Config.Types.{RouteConfig, Config}
use zaphyl.Router.{
  Memory, Target, new_target, with_h2, Route, new_route, with_id, with_strip_prefix, with_headers,
  with_static, Router,
}
use zaphyl.Proxy.{header_pairs}

-- The name for TLS is the address before its last colon.
abbrev pub sni_of : Option (Str × Str) → Str
sni_of none = []
sni_of (some (host, port)) = host

pub build_target : RouteConfig → Str → Memory → Target × Memory
build_target route address m =
    let (t, m') = new_target address route.tls (sni_of (rsplit_once b':' address)) m in
    (with_h2 route.grpc t, m')

pub build_targets : RouteConfig → List Str → Memory → List Target × Memory
unfolding build_target
build_targets route [] m = ([], m)
build_targets route (address ∷ addresses) m =
    let (t, m₁) = build_target route address m in
    let (ts, m₂) = build_targets route addresses m₁ in (t ∷ ts, m₂)

abbrev pub with_root : Option Str → Route → Route
with_root none r = r
with_root (some root) r = with_static root r

pub build_route : ℕ → RouteConfig → Memory → Route × Memory
unfolding build_targets
build_route index route m =
    let (targets, m₁) = build_targets route route.upstream m in
    let (r, m₂) = new_route route.host route.path targets m₁ in
    (
      with_root route.root (
          with_headers (header_pairs route.request_headers) (header_pairs route.response_headers)
            (with_strip_prefix route.strip_prefix (with_id index r))),
      m₂,
    )

pub build_routes : ℕ → List RouteConfig → Memory → List Route × Memory
unfolding build_route
build_routes index [] m = ([], m)
build_routes index (route ∷ routes) m =
    let (r, m₁) = build_route index route m in
    let (rs, m₂) = build_routes (index + 1) routes m₁ in (r ∷ rs, m₂)

unfoldable pub build_router : Config → Memory → Router × Memory
unfolding build_routes
build_router config m =
    let (routes, m') = build_routes 0 config.routes m in (record { routes = routes }, m')
