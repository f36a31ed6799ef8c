-- ===== src/Cache/Store/Eviction.antt =====
-- Which entry gives way to a new one.
use zaphyl.Prelude.{
  ◌≢◌, ℕ, ◌≤◌, ◌≡◌, ◌⊎◌, inl, inr, refl, false, not, ◌&&◌, none, some, [], ◌∷◌, arith, leb, length,
  Option-cases, Bool-cases, is_some,
}
use zaphyl.Str.{Str, str_eq}
use zaphyl.Str.Laws.{str_eq_iff}
use zaphyl.HashMap.{insert, HashMap, get, contains_key, remove}
use zaphyl.HashMap.Laws.{get-insert, get-remove}
use zaphyl.Cache.Store.{Entry, ResponseCache, soonest, evicted, insert_memory}
use zaphyl.Cache.Store.Bounded.{soonest-none, IsUnique, soonest-contains}

get-empty : (m : HashMap Entry) (i : Str) → m ≡ [] → get i m ≡ none
unfolding get
get-empty m i e = rw e refl

soonest-least :
    (m : HashMap Entry) (k : Str) (t : ℕ) (i : Str) (e : Entry)
    → soonest m ≡ some (k, t)
    → get i m ≡ some e
    → t ≤ e.0
unfolding soonest get
soonest-least [] k t i e h g = cc
soonest-least ((j, x) ∷ m) k t i e h g = elim (Option-cases (soonest m)) [
  | inl nothing ↦ ground (arith, get-empty m i (soonest-none m nothing))
  | inr ((k', t'), s) ↦ ground (arith, soonest-least m k' t' i e)
]

contains_get : (k : Str) (m : HashMap Entry) → contains_key k m ≡ is_some (get k m)
unfolding contains_key
contains_get k m = refl

soonest-get :
    (m : HashMap Entry) (k : Str) (t : ℕ) (e : Entry)
    → IsUnique m
    → soonest m ≡ some (k, t)
    → get k m ≡ some e
    → e.0 ≡ t
unfolding soonest get
soonest-get [] k t e u h g = cc
soonest-get ((j, x) ∷ m) k t e (alone, u) h g = ground (
  arith,
  soonest-get m k t e u,
  soonest-contains m k t,
  contains_get k m,
  str_eq_iff j k,
  str_eq_iff j j,
)

left_out :
    (c : ResponseCache) (key j k : Str) (e x : Entry)
    → key ≢ j
    → get j c.entries ≡ some x
    → (k ≡ j → (i : Str) (y : Entry) → get i c.entries ≡ some y → x.0 ≤ y.0)
    → c.max_entries ≤ length c.entries
    → contains_key key c.entries ≡ false
    → (get j (insert key e (remove k c.entries)) ≡ some x)
      ⊎ ((get j (insert key e (remove k c.entries)) ≡ none)
          × (c.max_entries ≤ length c.entries)
          × (contains_key key c.entries ≡ false)
          × ((i : Str) (y : Entry) → get i c.entries ≡ some y → x.0 ≤ y.0))
left_out c key j k e x other g least full unknown = elim (Bool-cases (str_eq k j)) [
  | inl same ↦ inr (
    ground (
      arith,
      get-insert key j e (remove k c.entries),
      get-remove k j c.entries,
      str_eq_iff key j,
    ),
    full,
    unknown,
    least ((str_eq_iff k j).0 same),
  )
  | inr differs ↦ inl (
      ground (
        arith,
        get-insert key j e (remove k c.entries),
        get-remove k j c.entries,
        str_eq_iff key j,
      ))
]

-- Storing under one key leaves what any other key has, or drops it. It drops an entry only if the
-- cache was full and the stored key new, and then no entry would have expired sooner.
pub insert_memory-evicts :
    (c : ResponseCache) (key j : Str) (e x : Entry)
    → IsUnique c.entries
    → key ≢ j
    → get j c.entries ≡ some x
    → (get j (insert_memory key e c).entries ≡ some x)
      ⊎ ((get j (insert_memory key e c).entries ≡ none)
          × (c.max_entries ≤ length c.entries)
          × (contains_key key c.entries ≡ false)
          × ((i : Str) (y : Entry) → get i c.entries ≡ some y → x.0 ≤ y.0))
unfolding insert_memory evicted
insert_memory-evicts c key j e x u other g =
    elim (Bool-cases (leb c.max_entries (length c.entries) && not (contains_key key c.entries))) [
      | inr room ↦ inl (rw room (ground (arith, get-insert key j e c.entries, str_eq_iff key j)))
      | inl full ↦ elim (Option-cases (soonest c.entries)) [
        | inl nothing ↦
            absurd (ground (arith, get-empty c.entries j (soonest-none c.entries nothing)))
        | inr ((k, t), s) ↦
            rw (full, s)
              (left_out c key j k e x other g
                (λ same i y there.
                  let first = soonest-get c.entries k t x u s (rw same g) in
                  let least = soonest-least c.entries k t i y s there in omega arith)
                (ground arith) (ground arith))
      ]
    ]
