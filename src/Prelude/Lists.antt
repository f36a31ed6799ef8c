-- ===== src/Prelude/Lists.antt =====
-- Lists measured by native numbers, under the library's names, and predicates over their items.
use Prim.Native.Nat.{ℕ, zero, suc, ◌+◌, ◌≤◌}
use mathlib.Core.Path.{◌≡◌, refl, ap}
use mathlib.Core.Bool.{Bool, true, false, ◌&&◌, ◌||◌}
use mathlib.Core.Logic.{◌↔◌, ◌⊎◌, inl, inr}
use mathlib.Core.List.{List, [], ◌∷◌, ◌++◌}
use mathlib.Core.Option.{Option, none, some}
use native.Mathlib.Omega.{arith}
use zaphyl.Prelude.Tests.{Bool-cases}

module _ {ℓ} {A : Type ℓ} where
  abbrev pub length : List A → ℕ
  length [] = 0
  length (x ∷ xs) = suc (length xs)

  abbrev pub get_elem? : List A → ℕ → Option A
  get_elem? [] i = none
  get_elem? (x ∷ xs) zero = some x
  get_elem? (x ∷ xs) (suc i) = get_elem? xs i

  abbrev pub take : ℕ → List A → List A
  take zero xs = []
  take (suc n) [] = []
  take (suc n) (x ∷ xs) = x ∷ take n xs

  abbrev pub drop : ℕ → List A → List A
  drop zero xs = xs
  drop (suc n) [] = []
  drop (suc n) (x ∷ xs) = drop n xs

  abbrev pub any : (A → Bool) → List A → Bool
  any p [] = false
  any p (x ∷ xs) = p x || any p xs

  abbrev pub all : (A → Bool) → List A → Bool
  all p [] = true
  all p (x ∷ xs) = p x && all p xs

  abbrev pub find : (A → Bool) → List A → Option A
  find p [] = none
  find p (x ∷ xs) = elim (p x) [ true ↦ some x | false ↦ find p xs ]

  abbrev pub is_empty : List A → Bool
  is_empty [] = true
  is_empty (x ∷ xs) = false

  pub length-append : (xs ys : List A) → length (xs ++ ys) ≡ length xs + length ys
  length-append [] ys = omega arith
  length-append (x ∷ xs) ys = omega (arith, length-append xs ys)

  pub drop-append : (xs ys : List A) → drop (length xs) (xs ++ ys) ≡ ys
  drop-append [] ys = refl
  drop-append (x ∷ xs) ys = drop-append xs ys

  pub take-append : (xs ys : List A) → take (length xs) (xs ++ ys) ≡ xs
  take-append [] ys = refl
  take-append (x ∷ xs) ys = ap (◌∷◌ x) (take-append xs ys)

  pub length-take-le : (n : ℕ) (xs : List A) → n ≤ length xs → length (take n xs) ≡ n
  length-take-le zero xs h = refl
  length-take-le (suc n) [] h = absurd (omega arith)
  length-take-le (suc n) (x ∷ xs) h = omega (arith, length-take-le n xs)

module _ {ℓ κ} {A : Type ℓ} (P : A → Type κ) where
  abbrev pub All : List A → Type κ
  All [] = Unit
  All (x ∷ xs) = P x × All xs

  pub All-append : (xs ys : List A) → All xs → All ys → All (xs ++ ys)
  All-append [] ys _ k = k
  All-append (x ∷ xs) ys (p, h) k = (p, All-append xs ys h k)

-- Some item of the list has the property.
abbrev pub Some {ℓ} : {A : Type ℓ} → (A → Type 0) → List A → Type 0
Some P [] = ⊥
Some P (x ∷ xs) = P x ⊎ Some P xs

module _ {ℓ} {A : Type ℓ} (p : A → Bool) where
  pub any→Some : (xs : List A) → any p xs ≡ true → Some (λ x. p x ≡ true) xs
  any→Some [] h = cc
  any→Some (x ∷ xs) h = elim (Bool-cases (p x)) [
    | inl here ↦ inl here
    | inr skip ↦ inr (any→Some xs (rw skip at h))
  ]

  pub Some→any : (xs : List A) → Some (λ x. p x ≡ true) xs → any p xs ≡ true
  Some→any [] h = absurd h
  Some→any (x ∷ xs) (inl here) = rw here refl
  Some→any (x ∷ xs) (inr there) = rw (Some→any xs there) (ground arith)

  pub any_iff : (xs : List A) → (any p xs ≡ true) ↔ Some (λ x. p x ≡ true) xs
  any_iff xs = (any→Some xs, Some→any xs)

  pub all→All : (xs : List A) → all p xs ≡ true → All (λ x. p x ≡ true) xs
  all→All [] h = tt
  all→All (x ∷ xs) h = (ground arith, all→All xs (ground arith))

  pub All→all : (xs : List A) → All (λ x. p x ≡ true) xs → all p xs ≡ true
  All→all [] h = refl
  All→all (x ∷ xs) (here, h) = rw here (All→all xs h)

  pub all_iff : (xs : List A) → (all p xs ≡ true) ↔ All (λ x. p x ≡ true) xs
  all_iff xs = (all→All xs, All→all xs)

  -- The item found passes the test, and none before it does.
  pub find-split :
      (xs : List A) {y : A}
      → find p xs ≡ some y
      → (before : List A) × (after : List A) × (xs ≡ before ++ y ∷ after)
        × (p y ≡ true)
        × All (λ x. p x ≡ false) before
  find-split [] h = cc
  find-split (x ∷ xs) {y} h = elim (Bool-cases (p x)) [
    | inl here ↦
        let e : x ≡ y = ground (arith, rw (here, find) at h) in
        ([], xs, ap (λ z. z ∷ xs) e, rw (← e) here, tt)
    | inr skip ↦
        let (before, after, e, here, none_before) = find-split xs (rw (skip, find) at h) in
        (x ∷ before, after, ap (◌∷◌ x) e, here, (skip, none_before))
  ]

  pub find-of_split :
      (before after : List A) (y : A)
      → p y ≡ true
      → All (λ x. p x ≡ false) before
      → find p (before ++ y ∷ after) ≡ some y
  find-of_split [] after y here _ = rw here refl
  find-of_split (x ∷ before) after y here (skip, h) = rw skip (find-of_split before after y here h)

  pub find-none_iff : (xs : List A) → (find p xs ≡ none) ↔ All (λ x. p x ≡ false) xs
  find-none_iff [] = (λ _. tt, λ _. refl)
  find-none_iff (x ∷ xs) =
      (λ h. ground (arith, (find-none_iff xs).0), λ h. ground (arith, (find-none_iff xs).1))
