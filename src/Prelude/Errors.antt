-- ===== src/Prelude/Errors.antt =====
-- Rust's fallible results: `Option` with `?`, and `Result` with an error value.
use mathlib.Core.Path.{◌≡◌, refl, ap}
use mathlib.Core.Bool.{Bool, true, false}
use mathlib.Core.Option.{Option, none, some}

pub data Result {ℓ} (E : Type 0) (A : Type ℓ) : Type ℓ where
  ok : A → Result E A
  err : E → Result E A

-- `?` on an `Option`.
abbrev pub and_then {ℓ κ} : {A : Type ℓ} {B : Type κ} → Option A → (A → Option B) → Option B
and_then none k = none
and_then (some a) k = k a

abbrev pub unwrap_or {ℓ} : {A : Type ℓ} → Option A → A → A
unwrap_or none d = d
unwrap_or (some a) d = a

abbrev pub is_some {ℓ} : {A : Type ℓ} → Option A → Bool
is_some none = false
is_some (some a) = true

abbrev pub is_some_and {ℓ} : {A : Type ℓ} → Option A → (A → Bool) → Bool
is_some_and none p = false
is_some_and (some a) p = p a

abbrev pub option_map {ℓ κ} : {A : Type ℓ} {B : Type κ} → (A → B) → Option A → Option B
option_map f none = none
option_map f (some a) = some (f a)

-- `?` on a `Result`.
abbrev pub try {ℓ κ} :
    {E : Type 0} {A : Type ℓ} {B : Type κ} → Result E A → (A → Result E B) → Result E B
try (ok a) k = k a
try (err e) k = err e

pub ok_inj {ℓ} : {E : Type 0} {A : Type ℓ} (a b : A) → ◌≡◌ {A = Result E A} (ok a) (ok b) → a ≡ b
ok_inj {E} {A} a b h = ap (value a) h
  where
    value : A → Result E A → A
    value d (ok x) = x
    value d (err e) = d

pub some_inj {ℓ} : {A : Type ℓ} (a b : A) → some a ≡ some b → a ≡ b
some_inj a b h = ap (λ o. unwrap_or o a) h

-- What a chain of `?` that succeeds went through.
pub try-eq-ok {ℓ κ} :
    {E : Type 0} {A : Type ℓ} {B : Type κ} (r : Result E A) (k : A → Result E B) (b : B)
    → try r k ≡ ok b
    → (a : A) × (r ≡ ok a) × (k a ≡ ok b)
try-eq-ok (ok a) k b h = (a, refl, h)
try-eq-ok {E} {A} {B} (err e) k b h = absurd (is_error h)
  where
    is_error : ¬ (◌≡◌ {A = Result E B} (err e) (ok b))
    is_error h = cc

-- What a chain yields, its second step yields from what its first does.
pub and_then-some {ℓ κ} :
    {A : Type ℓ} {B : Type κ} (x : Option A) (k : A → Option B) (b : B)
    → and_then x k ≡ some b
    → (a : A) × (x ≡ some a) × (k a ≡ some b)
and_then-some none k b h = cc
and_then-some (some a) k b h = (a, refl, h)
