-- ===== src/Router/Health.antt =====
-- crates/zaphyl/src/main.rs, `spawn_health_prober`: its passes over the probes of the router, and what
-- they leave in the flags that the targets share with it.
use zaphyl.Prelude.{
  Option, none, some, false, refl, sym, ap, ℕ, Bool, ◌≡◌, ◌⊎◌, inl, inr, List, [], ◌∷◌, ◌++◌, map,
  ◌==◌, All, Some, Bool-cases, ==_iff, ==_refl,
}
use zaphyl.Str.{Str}
use zaphyl.Router.{
  Memory, Target, Route, Router, store_flag, is_healthy, health_handle, probes_of, health_probes,
}

-- The pass of the prober; `reachable` is what connecting to the address gives in this pass.
pub probe_all : (Str → Bool) → List (Str × ℕ) → Memory → Memory
probe_all reachable [] m = m
probe_all reachable ((address, healthy) ∷ probes) m =
    probe_all reachable probes (store_flag healthy (reachable address) m)

-- What the network gives in a pass: the addresses of a name, and which of them accept a connection
-- within two seconds.
pub record Network (Addr : Type 0) : Type 0 where
  pub to_socket_addrs : Str → Option (List Addr)
  pub connects : Addr → Bool

abbrev pub first_connects : {Addr : Type 0} → Network Addr → Option (List Addr) → Bool
first_connects net none = false
first_connects net (some []) = false
first_connects net (some (addr ∷ addrs)) = net.connects addr

-- Only the first address of a name is tried.
unfoldable pub reaches : {Addr : Type 0} → Network Addr → Str → Bool
reaches net address = first_connects net (net.to_socket_addrs address)

-- The passes of the thread so far. Between two of them the memory changes as it may.
pub spawn_health_prober :
    {Addr : Type 0} → List (Network Addr × (Memory → Memory)) → List (Str × ℕ) → Memory → Memory
unfolding probe_all reaches
spawn_health_prober [] probes m = m
spawn_health_prober ((net, between) ∷ passes) probes m =
    spawn_health_prober passes probes (probe_all (reaches net) probes (between m))

-- Whoever shares the cell has the address.
abbrev pub SharedBy : Str → ℕ → List (Str × ℕ) → Type 0
SharedBy address cell probes = All (λ p. p.1 ≡ cell → p.0 ≡ address) probes

untouched :
    (reachable : Str → Bool) (probes : List (Str × ℕ)) (m : Memory) (address : Str) (cell : ℕ)
    → SharedBy address cell probes
    → m.flags cell ≡ reachable address
    → (probe_all reachable probes m).flags cell ≡ reachable address
unfolding probe_all store_flag
untouched reachable [] m address cell shared e = e
untouched reachable ((a, c) ∷ probes) m address cell (same, shared) e =
    untouched reachable probes (store_flag c (reachable a) m) address cell shared
      (elim (Bool-cases (cell == c)) [
        | inl h ↦ rw h (ap reachable (same (sym ((==_iff cell c).0 h))))
        | inr h ↦ rw h e
      ])

probed :
    (reachable : Str → Bool) (probes : List (Str × ℕ)) (m : Memory) (address : Str) (cell : ℕ)
    → SharedBy address cell probes
    → Some (λ p. (p.0 ≡ address) × (p.1 ≡ cell)) probes
    → (probe_all reachable probes m).flags cell ≡ reachable address
unfolding probe_all store_flag
probed reachable [] m address cell shared h = absurd h
probed reachable ((a, c) ∷ probes) m address cell (same, shared) (inl (ea, ec)) =
    untouched reachable probes (store_flag c (reachable a) m) address cell shared
      (rw (ec, ==_refl cell) (ap reachable ea))
probed reachable ((a, c) ∷ probes) m address cell (same, shared) (inr h) =
    probed reachable probes (store_flag c (reachable a) m) address cell shared h

-- The target belongs to one of the routes.
abbrev pub IsTargetOf : Target → List Route → Type 0
IsTargetOf t rs = Some (λ r. Some (λ t'. t' ≡ t) r.targets) rs

Some-append {ℓ} :
    {A : Type ℓ} (P : A → Type 0) (xs ys : List A) → Some P xs ⊎ Some P ys → Some P (xs ++ ys)
Some-append P [] ys (inl h) = absurd h
Some-append P [] ys (inr h) = h
Some-append P (x ∷ xs) ys (inl (inl p)) = inl p
Some-append P (x ∷ xs) ys (inl (inr h)) = inr (Some-append P xs ys (inl h))
Some-append P (x ∷ xs) ys (inr h) = inr (Some-append P xs ys (inr h))

probe_of_target :
    (t : Target) (ts : List Target)
    → Some (λ t'. t' ≡ t) ts
    → Some {A = Str × ℕ}
        (λ p. (p.0 ≡ t.address) × (p.1 ≡ t.healthy))
        (map (λ t'. (t'.address, health_handle t')) ts)
unfolding health_handle
probe_of_target t [] h = h
probe_of_target t (t' ∷ ts) (inl e) = inl (ap (λ x. x.address) e, ap (λ x. x.healthy) e)
probe_of_target t (t' ∷ ts) (inr h) = inr (probe_of_target t ts h)

pub listed :
    (t : Target) (rs : List Route)
    → IsTargetOf t rs
    → Some {A = Str × ℕ} (λ p. (p.0 ≡ t.address) × (p.1 ≡ t.healthy)) (probes_of rs)
unfolding probes_of
listed t [] h = h
listed t (r ∷ rs) (inl h) = Some-append _ _ _ (inl (probe_of_target t r.targets h))
listed t (r ∷ rs) (inr h) = Some-append _ _ _ (inr (listed t rs h))

-- After a pass over the router's probes every target of the router is healthy exactly if its address
-- could be reached, provided that only targets of one address share a flag.
pub is_healthy-probe_all :
    (reachable : Str → Bool) (router : Router) (m : Memory) (t : Target)
    → IsTargetOf t router.routes
    → SharedBy t.address t.healthy (health_probes router)
    → is_healthy (probe_all reachable (health_probes router) m) t ≡ reachable t.address
unfolding health_probes is_healthy
is_healthy-probe_all reachable router m t member shared =
    probed reachable (health_probes router) m t.address t.healthy shared
      (listed t router.routes member)

-- The last pass counts, whatever the passes before have found.
pub spawn_health_prober-last :
    {Addr : Type 0} (passes : List (Network Addr × (Memory → Memory))) (net : Network Addr)
    (between : Memory → Memory) (probes : List (Str × ℕ)) (m : Memory)
    → spawn_health_prober (passes ++ (net, between) ∷ []) probes m
      ≡ probe_all (reaches net) probes (between (spawn_health_prober passes probes m))
unfolding spawn_health_prober
spawn_health_prober-last [] net between probes m = refl
spawn_health_prober-last ((n, b) ∷ passes) net between probes m =
    spawn_health_prober-last passes net between probes (probe_all (reaches n) probes (b m))
