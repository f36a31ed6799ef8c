-- ===== src/Router/Matching.antt =====
-- Which route takes a request.
use zaphyl.Prelude.{
  true, false, ◌≡◌, refl, ◌↔◌, inl, inr, Option, none, some, List, [], ◌∷◌, ◌++◌, arith, All,
  find-split, find-of_split, find-none_iff, Bool-cases, is_some_and,
}
use zaphyl.Str.{Str, to_ascii_lowercase, eq_ignore_ascii_case}
use zaphyl.Str.Laws.{eq_ignore_ascii_case_iff}
use zaphyl.Router.{
  Route, Router, host_matches, path_matches, path_under_prefix, matches, match_route,
}
use zaphyl.Router.Paths.{base_of, IsUnder, path_under_prefix_iff}

-- A route without a host takes any request, one with a host only those for it, whatever the case.
abbrev pub HostFits : Option Str → Option Str → Type 0
HostFits none host = Unit
HostFits (some expected) none = ⊥
HostFits (some expected) (some h) = to_ascii_lowercase h ≡ to_ascii_lowercase expected

abbrev pub PathFits : Option Str → Str → Type 0
PathFits none path = Unit
PathFits (some prefix) path = IsUnder path (base_of prefix)

-- The route takes the request.
abbrev pub Fits : Option Str → Str → Route → Type 0
Fits host path r = HostFits r.host host × PathFits r.path_prefix path

host_iff :
    (wanted host : Option Str)
    → ((elim wanted [
      | none ↦ true
      | some expected ↦ is_some_and host (λ h. eq_ignore_ascii_case h expected)
    ])
        ≡ true)
      ↔ HostFits wanted host
host_iff none host = (λ _. tt, λ _. refl)
host_iff (some expected) none = (λ h. cc, λ h. absurd h)
host_iff (some expected) (some h) = eq_ignore_ascii_case_iff h expected

path_iff :
    (wanted : Option Str) (path : Str)
    → ((elim wanted [ none ↦ true | some prefix ↦ path_under_prefix path prefix ]) ≡ true)
      ↔ PathFits wanted path
path_iff none path = (λ _. tt, λ _. refl)
path_iff (some prefix) path = path_under_prefix_iff path prefix

pub matches_iff :
    (r : Route) (host : Option Str) (path : Str) → (matches r host path ≡ true) ↔ Fits host path r
unfolding matches host_matches path_matches
matches_iff r host path = (
  λ h. ((host_iff r.host host).0 (ground arith), (path_iff r.path_prefix path).0 (ground arith)),
  λ f. ground (arith, (host_iff r.host host).1 f.0, (path_iff r.path_prefix path).1 f.1),
)

not-Fits :
    (host : Option Str) (path : Str) (rs : List Route)
    → All (λ r. matches r host path ≡ false) rs ↔ All (λ r. ¬ Fits host path r) rs
not-Fits host path [] = (λ _. tt, λ _. tt)
not-Fits host path (r ∷ rs) = (
  λ h. (λ f. cc (h.0, (matches_iff r host path).1 f), (not-Fits host path rs).0 h.1),
  λ h. (
    elim (Bool-cases (matches r host path)) [
      | inl fit ↦ absurd (h.0 ((matches_iff r host path).0 fit))
      | inr misfit ↦ misfit
    ],
    (not-Fits host path rs).1 h.1,
  ),
)

-- A request is given to a route exactly when the route takes it and no route before it does.
pub match_route_iff :
    (router : Router) (host : Option Str) (path : Str) (r : Route)
    → (match_route router host path ≡ some r) ↔ (
        (before : List Route) × (after : List Route) × (router.routes ≡ before ++ r ∷ after)
        × Fits host path r
        × All (λ r'. ¬ Fits host path r') before)
unfolding match_route
match_route_iff router host path r = (
  λ h.
      let (before, after, e, here, skipped) =
        find-split (λ r'. matches r' host path) router.routes h in
      (before, after, e, (matches_iff r host path).0 here, (not-Fits host path before).0 skipped),
  λ (before, after, e, here, skipped). rw e (
      find-of_split (λ r'. matches r' host path) before after r ((matches_iff r host path).1 here)
        ((not-Fits host path before).1 skipped)),
)

-- No route is given exactly when no route takes the request.
pub match_route-none_iff :
    (router : Router) (host : Option Str) (path : Str)
    → (match_route router host path ≡ none) ↔ All (λ r. ¬ Fits host path r) router.routes
unfolding match_route
match_route-none_iff router host path =
    let (to, from) = find-none_iff (λ r. matches r host path) router.routes in
    (
      λ h. (not-Fits host path router.routes).0 (to h),
      λ h. from ((not-Fits host path router.routes).1 h),
    )
