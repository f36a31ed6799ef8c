-- ===== src/Router/Balance.antt =====
-- Load balancing: a target is always found, and in rotation.
use native.Mathlib.Nat.{add-zero, mod-lt, mod-eq_of_lt, mod-add-div, add-mul-mod_self_left}
use zaphyl.Prelude.{
  ltb, ℕ, zero, suc, ◌+◌, ◌-◌, ◌*◌, ◌/◌, ◌%◌, ◌^◌, ◌≤◌, ◌<◌, true, false, ◌≡◌, refl, ap, ◌∙◌, inl,
  inr, Option, some, List, [], ◌∷◌, length, get_elem?, arith, All, Some, Bool-cases, ==_refl,
}
use zaphyl.Router.{Memory, Target, Route, fetch_add, is_healthy, next_from, next_target}

module _ {ℓ} {A : Type ℓ} where
  pub get_elem?-lt : (xs : List A) (i : ℕ) → i < length xs → (x : A) × (get_elem? xs i ≡ some x)
  get_elem?-lt [] i h = absurd (omega arith)
  get_elem?-lt (x ∷ xs) zero h = (x, refl)
  get_elem?-lt (x ∷ xs) (suc i) h = get_elem?-lt xs i (omega arith)

  pub get_elem?-Some :
      (P : A → Type 0) (xs : List A) (i : ℕ) (x : A) → get_elem? xs i ≡ some x → P x → Some P xs
  get_elem?-Some P [] i x e p = cc
  get_elem?-Some P (y ∷ xs) zero x e p = let same : y ≡ x = ground arith in inl (rw same p)
  get_elem?-Some P (y ∷ xs) (suc i) x e p = inr (get_elem?-Some P xs i x e p)

  pub Some-get_elem? :
      (P : A → Type 0) (xs : List A)
      → Some P xs
      → (i : ℕ) × (x : A) × (i < length xs) × (get_elem? xs i ≡ some x) × P x
  Some-get_elem? P [] h = absurd h
  Some-get_elem? P (y ∷ xs) (inl p) = (0, y, omega arith, refl, p)
  Some-get_elem? P (y ∷ xs) (inr h) =
      let (i, x, lt, e, p) = Some-get_elem? P xs h in (suc i, x, omega arith, e, p)

-- Every index is met within one round of the counter.
pub round_meets : (c n i : ℕ) → i < n → (j : ℕ) × (j < n) × ((c + j) % n ≡ i)
round_meets c n i h = elim (Bool-cases (ltb i (c % n))) [
  | inl past ↦
      let low : c % n < n = mod-lt c (omega arith) in
      let e : c + (i + n - c % n) ≡ i + n * (c / n + 1) = omega (arith, mod-add-div c n) in
      (i + n - c % n, ground arith, rw e (add-mul-mod_self_left i n (c / n + 1) ∙ mod-eq_of_lt h))
  | inr ahead ↦
      let reached : c % n ≤ i = ground arith in
      let e : c + (i - c % n) ≡ i + n * (c / n) = omega (arith, mod-add-div c n) in
      (i - c % n, omega arith, rw e (add-mul-mod_self_left i n (c / n) ∙ mod-eq_of_lt h))
]

-- `fetch_add` changes no flag.
pub fetch_add-is_healthy :
    (cell : ℕ) (m : Memory) (t : Target) → is_healthy (fetch_add cell m).1 t ≡ is_healthy m t
unfolding fetch_add is_healthy
fetch_add-is_healthy cell m t = refl

pub fetch_add-counter :
    (cell : ℕ) (m : Memory) → (fetch_add cell m).1.counters cell ≡ (m.counters cell + 1) % 2 ^ 64
unfolding fetch_add
fetch_add-counter cell m = rw (==_refl cell) refl

-- One round of the scan, at a target that is healthy and at one that is not.
pub next_from-hit :
    (rounds : ℕ) (r : Route) (m : Memory) (t : Target)
    → get_elem? r.targets (m.counters r.next % length r.targets) ≡ some t
    → is_healthy m t ≡ true
    → next_from (suc rounds) r m ≡ (some t, (fetch_add r.next m).1)
unfolding next_from fetch_add is_healthy
next_from-hit rounds r m t e well = rw (e, next_from) (rw (well, next_from) refl)

pub next_from-miss :
    (rounds : ℕ) (r : Route) (m : Memory) (t : Target)
    → get_elem? r.targets (m.counters r.next % length r.targets) ≡ some t
    → is_healthy m t ≡ false
    → next_from (suc rounds) r m ≡ next_from rounds r (fetch_add r.next m).1
unfolding next_from fetch_add is_healthy
next_from-miss rounds r m t e ill = rw (e, next_from) (rw (ill, next_from) refl)

next_from-end :
    (r : Route) (m : Memory)
    → next_from zero r m
      ≡ (get_elem? r.targets (m.counters r.next % length r.targets), (fetch_add r.next m).1)
unfolding next_from fetch_add
next_from-end r m = refl

module _ (r : Route) (some_target : 0 < length r.targets) where
  -- The target that the counter points at.
  pointed : (c : ℕ) → (t : Target) × (get_elem? r.targets (c % length r.targets) ≡ some t)
  pointed c = get_elem?-lt r.targets (c % length r.targets) (mod-lt c some_target)

  next_from-total :
      (rounds : ℕ) (m : Memory)
      → (t : Target) × ((next_from rounds r m).0 ≡ some t) × Some (λ t'. t' ≡ t) r.targets
  next_from-total zero m =
      let (t, e) = pointed (m.counters r.next) in
      (t, rw next_from-end e, get_elem?-Some (λ t'. t' ≡ t) r.targets _ t e refl)
  next_from-total (suc rounds) m =
      let (t, e) = pointed (m.counters r.next) in
      elim (Bool-cases (is_healthy m t)) [
        | inl well ↦ (
          t,
          rw (next_from-hit rounds r m t e well) refl,
          get_elem?-Some (λ t'. t' ≡ t) r.targets _ t e refl,
        )
        | inr ill ↦
            rw (next_from-miss rounds r m t e ill) (next_from-total rounds (fetch_add r.next m).1)
      ]

  next_target-eq : (m : Memory) → next_target r m ≡ next_from (length r.targets) r m
  unfolding next_target
  next_target-eq m = ground arith

  -- A route with targets always gives one of them, healthy or not.
  pub next_target-total :
      (m : Memory) → (t : Target) × ((next_target r m).0 ≡ some t) × Some (λ t'. t' ≡ t) r.targets
  next_target-total m = rw (next_target-eq m) (next_from-total (length r.targets) m)

-- The targets of consecutive calls.
pub picks : ℕ → Route → Memory → List (Option Target)
picks zero r m = []
picks (suc calls) r m = let (t, m') = next_target r m in t ∷ picks calls r m'

get_elem?-All :
    (P : Target → Type 0) (xs : List Target) (i : ℕ) (t : Target)
    → get_elem? xs i ≡ some t
    → All P xs
    → P t
get_elem?-All P [] i t e h = cc
get_elem?-All P (x ∷ xs) zero t e (p, h) = let same : x ≡ t = ground arith in rw (← same) p
get_elem?-All P (x ∷ xs) (suc i) t e (p, h) = get_elem?-All P xs i t e h

next_target-hit :
    (r : Route) (m : Memory) (t : Target)
    → 0 < length r.targets
    → get_elem? r.targets (m.counters r.next % length r.targets) ≡ some t
    → is_healthy m t ≡ true
    → next_target r m ≡ (some t, (fetch_add r.next m).1)
next_target-hit r m t pos e well =
    let n : length r.targets ≡ suc (length r.targets - 1) = omega arith in
    next_target-eq r pos m
    ∙ ap (λ k. next_from k r m) n
    ∙ next_from-hit (length r.targets - 1) r m t e well

-- With all targets healthy, call number `j` from the counter's value `c` gives target `(c + j) % n`
-- of the route's `n`: strict rotation, until the counter wraps around.
pub picks-rotate :
    (r : Route) (m : Memory) (calls j : ℕ)
    → 0 < length r.targets
    → All (λ t. is_healthy m t ≡ true) r.targets
    → m.counters r.next + calls ≤ 2 ^ 64
    → j < calls
    → get_elem? (picks calls r m) j
      ≡ some (get_elem? r.targets ((m.counters r.next + j) % length r.targets))
unfolding picks
picks-rotate r m zero j pos well room lt = absurd (omega arith)
picks-rotate r m (suc calls) zero pos well room lt =
    let (t, e) = pointed r pos (m.counters r.next) in
    let hit = next_target-hit r m t pos e (get_elem?-All _ r.targets _ t e well) in
    rw (hit, add-zero, e) refl
picks-rotate r m (suc calls) (suc j) pos well room lt =
    let m' : Memory = (fetch_add r.next m).1 in
    let (t, e) = pointed r pos (m.counters r.next) in
    let hit = next_target-hit r m t pos e (get_elem?-All _ r.targets _ t e well) in
    let moved : m'.counters r.next ≡ m.counters r.next + 1 =
      omega (arith, fetch_add-counter r.next m) in
    let index : m.counters r.next + suc j ≡ m'.counters r.next + j = omega arith in
    rw (hit, index)
      (picks-rotate r m' calls j pos (still_healthy r.targets well) (omega arith) (omega arith))
  where
    still_healthy :
        (ts : List Target)
        → All (λ t. is_healthy m t ≡ true) ts
        → All (λ t. is_healthy (fetch_add r.next m).1 t ≡ true) ts
    still_healthy [] h = tt
    still_healthy (t ∷ ts) (h, hs) = (rw (fetch_add-is_healthy r.next m t) h, still_healthy ts hs)
