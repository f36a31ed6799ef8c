-- ===== src/Config/Load/Merge.antt =====
-- What the site files add to a configuration that passed validation.
use zaphyl.Prelude.{
  is_some, sym, All-append, ◌∙◌, ◌⊎◌, append-nil, append_assoc, ◌∙◌, true, ◌≡◌, ◌↔◌, ◌⊎◌, inl, inr,
  refl, sym, Option, none, some, List, [], ◌∷◌, ◌++◌, arith, any, All, Some, All-append, Bool-cases,
}
use zaphyl.Str.{Str, str_eq}
use zaphyl.Str.Laws.{str_eq_iff}
use zaphyl.Config.Types.{AcmeConfig, Config, AcmeConfig, RouteConfig, Config}
use zaphyl.Config.Sites.{site_route, SiteConfig, upstream_of, to_route}
use zaphyl.Config.Validate.Sound.{NotBlank, IsAcme, IsValid, NotBlank, IsAcme, IsRoute, IsValid}
use zaphyl.Config.Load.{
  merge_acme, merge, site_domains, add_domains, merge_acme, site_routes, site_domains, merge,
}

-- A site that is no application with an address of its own.
abbrev pub HasNoUpstream : SiteConfig → Type 0
HasNoUpstream site = upstream_of site.kind site.app ≡ []

site_route-IsRoute : (site : SiteConfig) → HasNoUpstream site → IsRoute (site_route site)
unfolding site_route
site_route-IsRoute site own = record {
  one_source = inr (own, refl);
  addresses = rw own tt;
  absolute = tt;
  strippable = λ e. cc;
}

-- A managed application gets a route with both an upstream and a root, which `validate` refuses.
pub site_route-not-IsRoute :
    (site : SiteConfig) → ¬ HasNoUpstream site → ¬ IsRoute (site_route site)
unfolding site_route
site_route-not-IsRoute site address valid = elim valid.one_source [
  | inl (_, no_root) ↦ cc
  | inr (no_upstream, _) ↦ address no_upstream
]

routes-IsRoute :
    (sites : List SiteConfig) → All HasNoUpstream sites → All IsRoute (site_routes sites)
unfolding site_routes to_route
routes-IsRoute [] _ = tt
routes-IsRoute (site ∷ sites) (own, h) = elim (Bool-cases site.enabled) [
  | inl on ↦ rw on (site_route-IsRoute site own, routes-IsRoute sites h)
  | inr off ↦ rw off (routes-IsRoute sites h)
]

-- Whichever domains are added, the list has no other, and it lists none of them twice.
abbrev pub Distinct : List Str → Type 0
Distinct [] = Unit
Distinct (d ∷ ds) = ¬ Some (λ x. x ≡ d) ds × Distinct ds

Some-append :
    (d : Str) (xs ys : List Str)
    → Some (λ x. x ≡ d) (xs ++ ys) ↔ (Some (λ x. x ≡ d) xs ⊎ Some (λ x. x ≡ d) ys)
Some-append d [] ys = (λ h. inr h, λ h. ground arith)
Some-append d (x ∷ xs) ys =
    (λ h. ground (arith, (Some-append d xs ys).0), λ h. ground (arith, (Some-append d xs ys).1))

known : (d : Str) (ds : List Str) → (any (λ x. str_eq x d) ds ≡ true) ↔ Some (λ x. x ≡ d) ds
known d [] = ground arith
known d (x ∷ ds) = ground (arith, str_eq_iff x d, known d ds)

add_domains-append : (ds xs : List Str) → (extra : List Str) × (add_domains ds xs ≡ ds ++ extra)
unfolding add_domains
add_domains-append ds [] = ([], sym (append-nil ds))
add_domains-append ds (x ∷ xs) = elim (Bool-cases (any (λ y. str_eq y x) ds)) [
  | inl old ↦ rw old (add_domains-append ds xs)
  | inr new ↦
      let (extra, e) = add_domains-append (ds ++ x ∷ []) xs in
      rw new (x ∷ extra, e ∙ append_assoc ds (x ∷ []) extra)
]

add_domains-Some :
    (d : Str) (ds xs : List Str)
    → Some (λ x. x ≡ d) (add_domains ds xs) ↔ (Some (λ x. x ≡ d) ds ⊎ Some (λ x. x ≡ d) xs)
unfolding add_domains
add_domains-Some d ds [] = (λ h. inl h, λ h. ground arith)
add_domains-Some d ds (x ∷ xs) = elim (Bool-cases (any (λ y. str_eq y x) ds)) [
  | inl old ↦
      let (to, from) = add_domains-Some d ds xs in
      rw old (
        λ h. ground (arith, to),
        λ h. elim h [
          | inl there ↦ from (inl there)
          | inr (inl e) ↦ from (inl (rw e at ((known x ds).0 old)))
          | inr (inr more) ↦ from (inr more)
        ],
      )
  | inr new ↦ rw new (
    λ h. ground (arith, (add_domains-Some d (ds ++ x ∷ []) xs).0, (Some-append d ds (x ∷ [])).0),
    λ h. ground (arith, (add_domains-Some d (ds ++ x ∷ []) xs).1, (Some-append d ds (x ∷ [])).1),
  )
]

Distinct-append :
    (ds : List Str) (d : Str) → ¬ Some (λ x. x ≡ d) ds → Distinct ds → Distinct (ds ++ d ∷ [])
Distinct-append [] d new _ = (λ h. h, tt)
Distinct-append (x ∷ ds) d new (alone, h) = (
  λ k. elim ((Some-append x ds (d ∷ [])).0 k) [
    | inl there ↦ alone there
    | inr (inl e) ↦ new (inl (sym e))
    | inr (inr never) ↦ never
  ],
  Distinct-append ds d (λ k. new (inr k)) h,
)

add_domains-Distinct : (ds xs : List Str) → Distinct ds → Distinct (add_domains ds xs)
unfolding add_domains
add_domains-Distinct ds [] h = h
add_domains-Distinct ds (x ∷ xs) h = elim (Bool-cases (any (λ y. str_eq y x) ds)) [
  | inl old ↦ rw old (add_domains-Distinct ds xs h)
  | inr new ↦ rw new (
      add_domains-Distinct (ds ++ x ∷ []) xs
        (Distinct-append ds x (λ k. cc (new, (known x ds).1 k)) h))
]

-- The domains of the sites are added behind the listed ones: the list that results starts with
-- those, holds exactly the listed domains and those of the sites, and repeats none if the listed
-- domains are distinct.
pub add_domains_lem :
    (ds xs : List Str)
    → ((extra : List Str) × (add_domains ds xs ≡ ds ++ extra))
      × ((d : Str)
          → Some (λ x. x ≡ d) (add_domains ds xs) ↔ (Some (λ x. x ≡ d) ds ⊎ Some (λ x. x ≡ d) xs))
      × (Distinct ds → Distinct (add_domains ds xs))
add_domains_lem ds xs =
    (add_domains-append ds xs, λ d. add_domains-Some d ds xs, add_domains-Distinct ds xs)

add_domains-All :
    (ds xs : List Str) → All NotBlank ds → All NotBlank xs → All NotBlank (add_domains ds xs)
unfolding add_domains
add_domains-All ds [] h k = h
add_domains-All ds (x ∷ xs) h (p, k) = elim (Bool-cases (any (λ y. str_eq y x) ds)) [
  | inl old ↦ rw old (add_domains-All ds xs h k)
  | inr new ↦
      rw new (add_domains-All (ds ++ x ∷ []) xs (All-append NotBlank ds (x ∷ []) h (p, tt)) k)
]

append-empty : (xs ys : List Str) → xs ++ ys ≡ [] → xs ≡ []
append-empty [] ys h = refl
append-empty (x ∷ xs) ys h = cc

append-empty_right : (xs ys : List RouteConfig) → xs ++ ys ≡ [] → ys ≡ []
append-empty_right [] ys h = h
append-empty_right (x ∷ xs) ys h = cc

merged :
    (acme : Option AcmeConfig) (xs : List Str)
    → is_some acme ≡ true
    → is_some (merge_acme acme xs) ≡ true
merged none xs h = h
merged (some acme) xs h = refl

merge-IsAcme :
    (acme : Option AcmeConfig) (xs : List Str)
    → All NotBlank xs
    → IsAcme acme
    → IsAcme (merge_acme acme xs)
merge-IsAcme none xs k _ = tt
merge-IsAcme (some acme) xs k (some_domain, domains, email, days, seconds) = (
  λ e.
      let (extra, e') = add_domains-append acme.domains xs in
      some_domain (append-empty acme.domains extra (sym e' ∙ e)),
  add_domains-All acme.domains xs domains k,
  email,
  days,
  seconds,
)

-- Merging managed sites into a valid configuration leaves it valid, if no site is an application with
-- an address of its own, and no domain that a site adds to the certificates is blank.
pub merge-IsValid :
    (c : Config) (sites : List SiteConfig)
    → All HasNoUpstream sites
    → All NotBlank (site_domains sites)
    → IsValid c
    → IsValid (merge c sites)
unfolding merge
merge-IsValid c sites own domains valid = record {
  some_route = λ e. valid.some_route (append-empty_right (site_routes sites) c.routes e);
  tls = valid.tls;
  one_certificate = elim valid.one_certificate [ inl e ↦ inl e | inr e ↦ inr (rw e refl) ];
  acme = merge-IsAcme c.acme (site_domains sites) domains valid.acme;
  rate_limit = valid.rate_limit;
  health_check = valid.health_check;
  limits = valid.limits;
  secure_http3 = λ e. elim (valid.secure_http3 e) [
    | inl t ↦ inl t
    | inr a ↦ inr (merged c.acme (site_domains sites) a)
  ];
  secure_redirect = λ e. elim (valid.secure_redirect e) [
    | inl t ↦ inl t
    | inr a ↦ inr (merged c.acme (site_domains sites) a)
  ];
  compression = valid.compression;
  cache = valid.cache;
  routes = All-append IsRoute (site_routes sites) c.routes (routes-IsRoute sites own) valid.routes;
}
