-- ===== src/HashMap.antt =====
-- `std::collections::HashMap<String, V>`: an association list, searched from its head. The order of
-- the list stands for the order of iteration, which Rust leaves open.
pub mod Laws
use zaphyl.Prelude.{ℕ, Bool, true, false, Option, none, some, List, [], ◌∷◌, if◌then◌else◌, is_some}
use zaphyl.Str.{Str, str_eq}

abbrev pub HashMap {ℓ} : Type ℓ → Type ℓ
HashMap V = List (Str × V)

module _ {ℓ} {V : Type ℓ} where
  unfoldable pub get : Str → HashMap V → Option V
  get k [] = none
  get k ((j, v) ∷ m) = if str_eq j k then some v else get k m

  unfoldable pub contains_key : Str → HashMap V → Bool
  unfolding get
  contains_key k m = is_some (get k m)

  unfoldable pub insert : Str → V → HashMap V → HashMap V
  insert k v [] = (k, v) ∷ []
  insert k v ((j, w) ∷ m) = if str_eq j k then (k, v) ∷ m else (j, w) ∷ insert k v m

  unfoldable pub remove : Str → HashMap V → HashMap V
  remove k [] = []
  remove k ((j, w) ∷ m) = if str_eq j k then remove k m else (j, w) ∷ remove k m
