-- ===== src/Proxy/Building/Probed.antt =====
-- What the router keeps of its configuration, and that its targets do not share their health flags.
use zaphyl.Prelude.{
  subst, ℕ, ◌+◌, ◌≤◌, ◌<◌, ◌≡◌, refl, ◌∙◌, Bool, Option, none, some, List, [], ◌∷◌, ◌++◌, map,
  arith, length, Some, inl, inr,
}
use zaphyl.Str.{Str}
use zaphyl.Config.Types.{RouteConfig, Config}
use zaphyl.Router.{
  Memory, Target, new_target, with_h2, Route, new_route, with_id, with_strip_prefix, with_headers,
  with_static, is_healthy, health_handle, probes_of, health_probes,
}
use zaphyl.Router.Health.{
  spawn_health_prober-last, reaches, spawn_health_prober, Network, probe_all, SharedBy, IsTargetOf,
  listed, is_healthy-probe_all,
}
use zaphyl.Proxy.Building.{
  build_target, build_targets, build_route, build_routes, build_router, with_root,
}

-- The flags of the probes, one after the other.
abbrev Ascending : ℕ → List (Str × ℕ) → Type 0
Ascending lo [] = Unit
Ascending lo ((address, cell) ∷ probes) = (cell ≡ lo) × Ascending (lo + 1) probes

abbrev target_probes : List Target → List (Str × ℕ)
target_probes ts = map (λ t. (t.address, health_handle t)) ts

Ascending-append :
    (lo : ℕ) (xs ys : List (Str × ℕ))
    → Ascending lo xs
    → Ascending (lo + length xs) ys
    → Ascending lo (xs ++ ys)
Ascending-append lo [] ys _ k = subst (λ n. Ascending n ys) (omega arith) k
Ascending-append lo ((a, c) ∷ xs) ys (e, h) k =
    (e, Ascending-append (lo + 1) xs ys h (subst (λ n. Ascending n ys) (omega arith) k))

above :
    (lo k : ℕ) (ps : List (Str × ℕ)) (address : Str)
    → k < lo
    → Ascending lo ps
    → SharedBy address k ps
above lo k [] address less _ = tt
above lo k ((a, c) ∷ ps) address less (e, h) =
    (λ same. absurd (omega arith), above (lo + 1) k ps address (omega arith) h)

at_least :
    (lo : ℕ) (ps : List (Str × ℕ)) (address : Str) (cell : ℕ)
    → Ascending lo ps
    → Some (λ p. (p.0 ≡ address) × (p.1 ≡ cell)) ps
    → lo ≤ cell
at_least lo [] address cell _ h = absurd h
at_least lo ((a, c) ∷ ps) address cell (e, h) (inl (_, here)) = omega arith
at_least lo ((a, c) ∷ ps) address cell (e, h) (inr there) =
    let more = at_least (lo + 1) ps address cell h there in omega arith

Ascending-SharedBy :
    (lo : ℕ) (ps : List (Str × ℕ)) (address : Str) (cell : ℕ)
    → Ascending lo ps
    → Some (λ p. (p.0 ≡ address) × (p.1 ≡ cell)) ps
    → SharedBy address cell ps
Ascending-SharedBy lo [] address cell _ h = absurd h
Ascending-SharedBy lo ((a, c) ∷ ps) address cell (e, h) (inl (same, here)) =
    (λ _. same, above (lo + 1) cell ps address (omega arith) h)
Ascending-SharedBy lo ((a, c) ∷ ps) address cell (e, h) (inr there) =
    let more = at_least (lo + 1) ps address cell h there in
    (λ here. absurd (omega arith), Ascending-SharedBy (lo + 1) ps address cell h there)

targets-Ascending :
    (route : RouteConfig) (addresses : List Str) (m : Memory)
    → Ascending m.free_flag (target_probes (build_targets route addresses m).0)
      × ((build_targets route addresses m).1.free_flag
          ≡ m.free_flag + length (target_probes (build_targets route addresses m).0))
unfolding build_targets build_target new_target with_h2 health_handle
targets-Ascending route [] m = (tt, omega arith)
targets-Ascending route (address ∷ addresses) m =
    let (h, e) = targets-Ascending route addresses (build_target route address m).1 in
    ((refl, h), omega arith)

root_targets : (o : Option Str) (r : Route) → (with_root o r).targets ≡ r.targets
unfolding with_static
root_targets none r = refl
root_targets (some root) r = refl

route_targets :
    (index : ℕ) (route : RouteConfig) (m : Memory)
    → (build_route index route m).0.targets ≡ (build_targets route route.upstream m).0
unfolding build_route new_route with_id with_strip_prefix with_headers
route_targets index route m = root_targets route.root _

route_flags :
    (index : ℕ) (route : RouteConfig) (m : Memory)
    → (build_route index route m).1.free_flag ≡ (build_targets route route.upstream m).1.free_flag
unfolding build_route new_route
route_flags index route m = refl

routes-Ascending :
    (index : ℕ) (routes : List RouteConfig) (m : Memory)
    → Ascending m.free_flag (probes_of (build_routes index routes m).0)
unfolding build_routes probes_of
routes-Ascending index [] m = tt
routes-Ascending index (route ∷ routes) m =
    let (h, e) = targets-Ascending route route.upstream m in
    let rest = routes-Ascending (index + 1) routes (build_route index route m).1 in
    rw (route_targets index route m) (
      Ascending-append m.free_flag _ _ h (
        subst
          (λ n.
            Ascending n
              (probes_of (build_routes (index + 1) routes (build_route index route m).1).0))
          (route_flags index route m ∙ e) rest))

-- In the router of a configuration, after a pass of the prober, every target is healthy exactly if its
-- address could be reached: no two targets share a flag, also where they have one address.
pub build_router-probed :
    (config : Config) (m m' : Memory) (reachable : Str → Bool) (t : Target)
    → IsTargetOf t (build_router config m).0.routes
    → is_healthy (probe_all reachable (health_probes (build_router config m).0) m') t
      ≡ reachable t.address
unfolding build_router health_probes
build_router-probed config m m' reachable t member =
    is_healthy-probe_all reachable (build_router config m).0 m' t member (
      Ascending-SharedBy m.free_flag _ t.address t.healthy (routes-Ascending 0 config.routes m)
        (listed t (build_router config m).0.routes member))

-- While the prober runs on the router of a configuration, and whatever requests do to the memory between
-- its passes, every target is healthy behind a pass exactly if the first address that its name had in
-- that pass took the connection: no two targets share a flag, also where they have one name.
pub build_router-health :
    {Addr : Type 0} (config : Config) (m m' : Memory)
    (passes : List (Network Addr × (Memory → Memory))) (net : Network Addr)
    (between : Memory → Memory) (t : Target)
    → IsTargetOf t (build_router config m).0.routes
    → is_healthy
        (spawn_health_prober
          (passes ++ (net, between) ∷ [])
          (health_probes (build_router config m).0)
          m')
        t
      ≡ reaches net t.address
build_router-health config m m' passes net between t member =
    rw (spawn_health_prober-last passes net between (health_probes (build_router config m).0) m') (
      build_router-probed config m
        (between (spawn_health_prober passes (health_probes (build_router config m).0) m'))
        (reaches net) t member)
