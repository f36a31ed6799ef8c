-- ===== src/Str/Laws.antt =====
-- Laws of the text operations: equality tests, prefixes, and what trimming and splitting keep.
use zaphyl.Prelude.{ℕ, ◌≡◌, refl, ap, ◌↔◌, true, false, ◌||◌, some, [], ◌∷◌, ◌++◌, arith, ==_refl}
use zaphyl.Str.{Str, str_eq, strip_prefix, contains, split, split_first, before}
use zaphyl.Str.{to_lower, to_ascii_lowercase, eq_ignore_ascii_case}

pub str_eq→eq : (a b : Str) → str_eq a b ≡ true → a ≡ b
unfolding str_eq
str_eq→eq [] [] h = refl
str_eq→eq [] (y ∷ ys) h = cc
str_eq→eq (x ∷ xs) [] h = cc
str_eq→eq (x ∷ xs) (y ∷ ys) h = ground (arith, str_eq→eq xs ys)

pub str_eq_refl : (a : Str) → str_eq a a ≡ true
unfolding str_eq
str_eq_refl [] = refl
str_eq_refl (x ∷ xs) = rw (==_refl x) (str_eq_refl xs)

pub str_eq_iff : (a b : Str) → (str_eq a b ≡ true) ↔ (a ≡ b)
str_eq_iff a b = (str_eq→eq a b, λ e. rw e (str_eq_refl b))

pub strip_prefix→append : (p s r : Str) → strip_prefix p s ≡ some r → s ≡ p ++ r
unfolding strip_prefix
strip_prefix→append [] s r h = ground arith
strip_prefix→append (p ∷ ps) [] r h = cc
strip_prefix→append (p ∷ ps) (c ∷ s) r h = ground (arith, strip_prefix→append ps s r)

pub strip_prefix-append : (p r : Str) → strip_prefix p (p ++ r) ≡ some r
unfolding strip_prefix
strip_prefix-append [] r = refl
strip_prefix-append (p ∷ ps) r = rw (==_refl p) (strip_prefix-append ps r)

pub strip_prefix-eq-some_iff : (p s r : Str) → (strip_prefix p s ≡ some r) ↔ (s ≡ p ++ r)
strip_prefix-eq-some_iff p s r = (strip_prefix→append p s r, λ e. rw e (strip_prefix-append p r))

-- A text is cut at the first of two separators in only one way.
pub append-cons_unique :
    (c : ℕ) (a b s t : Str)
    → contains c a ≡ false
    → contains c b ≡ false
    → a ++ c ∷ s ≡ b ++ c ∷ t
    → (a ≡ b) × (s ≡ t)
unfolding contains
append-cons_unique c [] [] s t h k e = ground arith
append-cons_unique c [] (y ∷ b) s t h k e = ground arith
append-cons_unique c (x ∷ a) [] s t h k e = ground arith
append-cons_unique c (x ∷ a) (y ∷ b) s t h k e = ground (arith, append-cons_unique c a b s t)

pub contains-append : (c : ℕ) (a b : Str) → contains c (a ++ b) ≡ (contains c a || contains c b)
unfolding contains
contains-append c [] b = refl
contains-append c (x ∷ a) b = ground (arith, contains-append c a b)

-- Nothing is cut from a text that holds no separator.
pub split_first-of_not-contains :
    (c : ℕ) (s : Str) → contains c s ≡ false → split_first c s ≡ (s, [])
unfolding contains split_first
split_first-of_not-contains c [] h = refl
split_first-of_not-contains c (d ∷ s) h = ground (arith, split_first-of_not-contains c s)

-- A separator behind a text without one ends the first piece.
pub split_first-append :
    (c : ℕ) (s t : Str) → contains c s ≡ false → split_first c (s ++ c ∷ t) ≡ (s, split c t)
unfolding contains split_first split
split_first-append c [] t h = rw (==_refl c) refl
split_first-append c (d ∷ s) t h = ground (arith, split_first-append c s t)

pub before-append : (c : ℕ) (s t : Str) → contains c s ≡ false → before c (s ++ c ∷ t) ≡ s
unfolding before
before-append c s t h = ap (λ p. p.0) (split_first-append c s t h)

pub before-of_not-contains : (c : ℕ) (s : Str) → contains c s ≡ false → before c s ≡ s
unfolding before
before-of_not-contains c s h = ap (λ p. p.0) (split_first-of_not-contains c s h)

pub to_lower_idem : (c : ℕ) → to_lower (to_lower c) ≡ to_lower c
unfolding to_lower
to_lower_idem c = ground arith

pub to_ascii_lowercase_idem :
    (s : Str) → to_ascii_lowercase (to_ascii_lowercase s) ≡ to_ascii_lowercase s
unfolding to_ascii_lowercase
to_ascii_lowercase_idem [] = refl
to_ascii_lowercase_idem (c ∷ s) = cc (to_lower_idem c, to_ascii_lowercase_idem s)

pub eq_ignore_ascii_case_iff :
    (a b : Str) → (eq_ignore_ascii_case a b ≡ true) ↔ (to_ascii_lowercase a ≡ to_ascii_lowercase b)
unfolding eq_ignore_ascii_case
eq_ignore_ascii_case_iff a b = str_eq_iff _ _
