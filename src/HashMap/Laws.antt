-- ===== src/HashMap/Laws.antt =====
-- Lookup after an update, and the number of entries.
use zaphyl.Prelude.{
  suc, ◌≤◌, ◌<◌, ◌≡◌, refl, true, none, some, [], ◌∷◌, arith, if◌then◌else◌, length,
}
use zaphyl.Str.{Str, str_eq}
use zaphyl.Str.Laws.{str_eq_iff}
use zaphyl.HashMap.{HashMap, get, contains_key, insert, remove}

module _ {ℓ} {V : Type ℓ} where
  pub get-insert :
      (k j : Str) (v : V) (m : HashMap V)
      → get j (insert k v m) ≡ (if str_eq k j then some v else get j m)
  unfolding get insert
  get-insert k j v [] = refl
  get-insert k j v ((i, w) ∷ m) =
      ground (arith, str_eq_iff k j, str_eq_iff i k, str_eq_iff i j, get-insert k j v m)

  pub get-remove :
      (k j : Str) (m : HashMap V) → get j (remove k m) ≡ (if str_eq k j then none else get j m)
  unfolding get remove
  get-remove k j [] = ground arith
  get-remove k j ((i, w) ∷ m) =
      ground (arith, str_eq_iff k j, str_eq_iff i k, str_eq_iff i j, get-remove k j m)

  -- Writing a key that is there adds no entry.
  pub length-insert :
      (k : Str) (v : V) (m : HashMap V)
      → length (insert k v m) ≡ (if contains_key k m then length m else suc (length m))
  unfolding contains_key get insert
  length-insert k v [] = refl
  length-insert k v ((i, w) ∷ m) = ground (arith, length-insert k v m)

  pub length-remove-le : (k : Str) (m : HashMap V) → length (remove k m) ≤ length m
  unfolding remove
  length-remove-le k [] = omega arith
  length-remove-le k ((i, w) ∷ m) = ground (arith, length-remove-le k m)

  -- Removing a key that is there drops an entry.
  pub length-remove-lt :
      (k : Str) (m : HashMap V) → contains_key k m ≡ true → length (remove k m) < length m
  unfolding contains_key get remove
  length-remove-lt k [] h = cc
  length-remove-lt k ((i, w) ∷ m) h = ground (arith, length-remove-lt k m, length-remove-le k m)
