-- ===== src/Router/Interleaved.antt =====
-- crates/zaphyl-core/src/router.rs, `next_target`, when other threads run between its steps. Each
-- access to an atomic is a step of its own: the increments of the route's counter, and the reads of the
-- targets' flags.
use native.Mathlib.Nat.{add-zero, mod-lt}
use zaphyl.Prelude.{
  ℕ, zero, suc, ◌+◌, ◌%◌, ◌^◌, ◌≤◌, ◌<◌, true, false, ◌≡◌, refl, sym, inl, inr, Option, none, some,
  length, get_elem?, ◌==◌, if◌then◌else◌, arith, Some, ◌∙◌, Option-cases, Bool-cases,
}
use zaphyl.Router.{Memory, Target, Route, fetch_add, is_healthy, next_from, next_target}
use zaphyl.Router.Balance.{
  next_from-hit, next_from-miss, get_elem?-lt, get_elem?-Some, Some-get_elem?, round_meets,
  fetch_add-counter, fetch_add-is_healthy,
}

-- What the other threads do before each step, by its number.
module _ (others : ℕ → Memory → Memory) where
  -- The rounds that are left, the number of the next step.
  unfoldable pub next_from_among : ℕ → ℕ → Route → Memory → Option Target × Memory
  unfolding fetch_add is_healthy
  next_from_among zero step r m =
      let (n, m') = fetch_add r.next (others step m) in
      (get_elem? r.targets (n % length r.targets), m')
  next_from_among (suc rounds) step r m =
      let (n, m') = fetch_add r.next (others step m) in
      elim (get_elem? r.targets (n % length r.targets)) [
        | none ↦ (none, m')
        | some t ↦ elim (is_healthy (others (step + 1) m') t) [
          | true ↦ (some t, others (step + 1) m')
          | false ↦ next_from_among rounds (step + 2) r (others (step + 1) m')
        ]
      ]

  unfoldable pub next_target_among : Route → Memory → Option Target × Memory
  unfolding next_from_among
  next_target_among r m =
      if length r.targets == 0 then (none, m) else next_from_among (length r.targets) 0 r m

  -- The memory that the read of a flag sees, in the round that starts with this step.
  abbrev read_at : ℕ → Route → Memory → Memory
  read_at step r m = others (step + 1) (fetch_add r.next (others step m)).1

  among-hit :
      (rounds step : ℕ) (r : Route) (m : Memory) (t : Target)
      → get_elem? r.targets ((others step m).counters r.next % length r.targets) ≡ some t
      → is_healthy (read_at step r m) t ≡ true
      → next_from_among (suc rounds) step r m ≡ (some t, read_at step r m)
  unfolding next_from_among fetch_add is_healthy
  among-hit rounds step r m t e well = rw (e, next_from_among) (rw (well, next_from_among) refl)

  among-miss :
      (rounds step : ℕ) (r : Route) (m : Memory) (t : Target)
      → get_elem? r.targets ((others step m).counters r.next % length r.targets) ≡ some t
      → is_healthy (read_at step r m) t ≡ false
      → next_from_among (suc rounds) step r m
        ≡ next_from_among rounds (step + 2) r (read_at step r m)
  unfolding next_from_among fetch_add is_healthy
  among-miss rounds step r m t e ill = rw (e, next_from_among) (rw (ill, next_from_among) refl)

  module _ (r : Route)
      (quiet : (step : ℕ) → (m : Memory) → (others step m).counters r.next ≡ m.counters r.next)
      (up : (step : ℕ)
        → (m : Memory) → (t : Target) → is_healthy m t ≡ true
        → is_healthy (others step m) t ≡ true)
      (some_target : 0 < length r.targets) where
    read_at-is_healthy :
        (step : ℕ) (m : Memory) (t : Target)
        → is_healthy m t ≡ true
        → is_healthy (read_at step r m) t ≡ true
    read_at-is_healthy step m t h =
        up (step + 1) (fetch_add r.next (others step m)).1 t
          (rw (fetch_add-is_healthy r.next (others step m) t) (up step m t h))

    read_at-counter :
        (step : ℕ) (m : Memory)
        → m.counters r.next + 1 < 2 ^ 64
        → (read_at step r m).counters r.next ≡ m.counters r.next + 1
    read_at-counter step m room = omega (
      arith,
      quiet (step + 1) (fetch_add r.next (others step m)).1,
      fetch_add-counter r.next (others step m),
      quiet step m,
    )

    among-healthy :
        (rounds step j : ℕ) (m : Memory) (t : Target)
        → m.counters r.next + rounds ≤ 2 ^ 64
        → j < rounds
        → get_elem? r.targets ((m.counters r.next + j) % length r.targets) ≡ some t
        → is_healthy m t ≡ true
        → (t' : Target) × ((next_from_among rounds step r m).0 ≡ some t')
          × (is_healthy (next_from_among rounds step r m).1 t' ≡ true)
          × Some (λ t''. t'' ≡ t') r.targets
    among-healthy zero step j m t room lt e well = absurd (omega arith)
    among-healthy (suc rounds) step zero m t room lt e well =
        let e' : get_elem? r.targets ((others step m).counters r.next % length r.targets) ≡ some t =
          rw (quiet step m) (rw add-zero at e) in
        let hit = among-hit rounds step r m t e' (read_at-is_healthy step m t well) in
        (
          t,
          rw hit refl,
          rw hit (read_at-is_healthy step m t well),
          get_elem?-Some (λ t'. t' ≡ t) r.targets _ t e' refl,
        )
    among-healthy (suc rounds) step (suc j) m t room lt e well =
        let (t₀, e₀) =
          get_elem?-lt r.targets ((others step m).counters r.next % length r.targets)
            (mod-lt ((others step m).counters r.next) some_target) in
        elim (Bool-cases (is_healthy (read_at step r m) t₀)) [
          | inl well₀ ↦
              let hit = among-hit rounds step r m t₀ e₀ well₀ in
              (t₀, rw hit refl, rw hit well₀, get_elem?-Some (λ t'. t' ≡ t₀) r.targets _ t₀ e₀ refl)
          | inr ill ↦
              let moved = read_at-counter step m (omega arith) in
              let index : m.counters r.next + suc j ≡ (read_at step r m).counters r.next + j =
                omega (arith, moved) in
              rw (among-miss rounds step r m t₀ e₀ ill) (
                among-healthy rounds (step + 2) j (read_at step r m) t (omega (arith, moved))
                  (omega arith) (rw index at e) (read_at-is_healthy step m t well))
        ]

    -- Other threads may run between the steps of the scan. As long as they do not ask the same route for
    -- a target meanwhile and take no target down, if some target is healthy as the scan starts and the
    -- counter does not wrap around within it, the target given is one of the route's, and its flag was
    -- up when it was read.
    pub next_target_among-healthy :
        (m : Memory)
        → m.counters r.next + length r.targets ≤ 2 ^ 64
        → Some (λ t. is_healthy m t ≡ true) r.targets
        → (t : Target) × ((next_target_among r m).0 ≡ some t)
          × (is_healthy (next_target_among r m).1 t ≡ true)
          × Some (λ t'. t' ≡ t) r.targets
    unfolding next_target_among
    next_target_among-healthy m room some_healthy =
        let (i, t, lt, e, well) =
          Some-get_elem? (λ t. is_healthy m t ≡ true) r.targets some_healthy in
        let (j, within, meets) = round_meets (m.counters r.next) (length r.targets) i lt in
        let there : next_target_among r m ≡ next_from_among (length r.targets) 0 r m =
          ground arith in
        rw there (among-healthy (length r.targets) 0 j m t room within (rw (sym meets) at e) well)

-- When no other thread runs, the scan is that of `next_target`.
next_from-idle :
    (rounds step : ℕ) (r : Route) (m : Memory)
    → next_from_among (λ _ m. m) rounds step r m ≡ next_from rounds r m
unfolding next_from_among next_from fetch_add is_healthy
next_from-idle zero step r m = refl
next_from-idle (suc rounds) step r m =
    elim (Option-cases (get_elem? r.targets (m.counters r.next % length r.targets))) [
      | inl e ↦ rw (e, next_from_among, next_from) refl
      | inr (t, e) ↦ elim (Bool-cases (is_healthy m t)) [
        | inl well ↦
            among-hit (λ _ m. m) rounds step r m t e well ∙ sym (next_from-hit rounds r m t e well)
        | inr ill ↦
            among-miss (λ _ m. m) rounds step r m t e ill
            ∙ next_from-idle rounds (step + 2) r (fetch_add r.next m).1
            ∙ sym (next_from-miss rounds r m t e ill)
      ]
    ]

pub next_target-idle : (r : Route) (m : Memory) → next_target_among (λ _ m. m) r m ≡ next_target r m
unfolding next_target_among next_target
next_target-idle r m = rw (next_from-idle (length r.targets) 0 r m) refl
