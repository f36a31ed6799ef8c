-- ===== src/Cache/Store/Bounded.antt =====
-- The size of the cache, and which entry gives way.
use zaphyl.Prelude.{
  zero, suc, Option, ℕ, ◌≤◌, ◌<◌, ◌≡◌, ◌⊎◌, inl, inr, refl, ap, true, not, ◌&&◌, none, some, [],
  ◌∷◌, arith, leb, length, Option-cases, Bool-cases,
}
use zaphyl.Str.{Str, str_eq}
use zaphyl.Str.Laws.{str_eq_iff}
use zaphyl.HashMap.{HashMap, get, contains_key, insert, remove}
use zaphyl.HashMap.Laws.{length-insert, length-remove-lt, get-insert, get-remove}
use zaphyl.Cache.Store.{
  from_disk, in_memory, read_disk, DiskTier, from_disk, lookup, remove_found, put, new,
  insert_memory, ResponseCache, evicted, Entry, soonest,
}

-- No key stands twice.
abbrev pub IsUnique : HashMap Entry → Type 0
IsUnique [] = Unit
IsUnique ((k, e) ∷ m) = (get k m ≡ none) × IsUnique m

insert-IsUnique : (k : Str) (e : Entry) (m : HashMap Entry) → IsUnique m → IsUnique (insert k e m)
unfolding insert get
insert-IsUnique k e [] _ = (refl, tt)
insert-IsUnique k e ((j, x) ∷ m) (alone, u) = elim (Bool-cases (str_eq j k)) [
  | inl same ↦ rw same (rw ((str_eq_iff j k).0 same) at alone, u)
  | inr other ↦
      rw other (
        ground (arith, get-insert k j e m, str_eq_iff j k, str_eq_iff k j),
        insert-IsUnique k e m u,
      )
]

remove-IsUnique : (k : Str) (m : HashMap Entry) → IsUnique m → IsUnique (remove k m)
unfolding remove
remove-IsUnique k [] _ = tt
remove-IsUnique k ((j, x) ∷ m) (alone, u) = elim (Bool-cases (str_eq j k)) [
  | inl same ↦ rw same (remove-IsUnique k m u)
  | inr other ↦ rw other (ground (arith, get-remove k j m), remove-IsUnique k m u)
]

pub soonest-none : (m : HashMap Entry) → soonest m ≡ none → m ≡ []
unfolding soonest
soonest-none [] h = refl
soonest-none ((k, e) ∷ m) h = absurd (ground arith)

pub soonest-contains :
    (m : HashMap Entry) (k : Str) (t : ℕ) → soonest m ≡ some (k, t) → contains_key k m ≡ true
unfolding soonest contains_key get
soonest-contains [] k t h = cc
soonest-contains ((j, e) ∷ m) k t h = ground (arith, soonest-contains m k t, str_eq_iff j k)

evicted-le :
    (c : ResponseCache) (key : Str)
    → 0 < c.max_entries
    → length c.entries ≤ c.max_entries
    → length (evicted c key) ≤ c.max_entries
      × ((contains_key key (evicted c key) ≡ true) ⊎ (length (evicted c key) < c.max_entries))
unfolding evicted
evicted-le c key some_room h =
    elim (Bool-cases (leb c.max_entries (length c.entries) && not (contains_key key c.entries))) [
      | inr room ↦ rw room (h, ground arith)
      | inl full ↦ elim (Option-cases (soonest c.entries)) [
        | inl e ↦
            absurd (ground (arith, ap (λ (m : HashMap Entry). length m) (soonest-none c.entries e)))
        | inr ((k, t), e) ↦
            let less = length-remove-lt k c.entries (soonest-contains c.entries k t e) in
            rw (full, e) (omega arith, inr (omega arith))
      ]
    ]

-- There is room for an entry, and there are no more entries than that, under distinct keys.
pub record IsBounded (c : ResponseCache) : Type 0 where
  pub room : 0 < c.max_entries
  pub size : length c.entries ≤ c.max_entries
  pub unique : IsUnique c.entries

remove_found-IsUnique :
    (o : Option (Str × ℕ)) (m : HashMap Entry) → IsUnique m → IsUnique (remove_found o m)
remove_found-IsUnique none m u = u
remove_found-IsUnique (some (k, t)) m u = remove-IsUnique k m u

evicted-IsUnique : (c : ResponseCache) (key : Str) → IsUnique c.entries → IsUnique (evicted c key)
unfolding evicted
evicted-IsUnique c key u =
    elim (Bool-cases (leb c.max_entries (length c.entries) && not (contains_key key c.entries))) [
      | inr room ↦ rw room u
      | inl full ↦ rw full (remove_found-IsUnique (soonest c.entries) c.entries u)
    ]

insert_memory-IsBounded :
    (key : Str) (e : Entry) (c : ResponseCache) → IsBounded c → IsBounded (insert_memory key e c)
unfolding insert_memory
insert_memory-IsBounded key e c b = record {
  room = b.room;
  size =
      let (size, fits) = evicted-le c key b.room b.size in
      ground (arith, length-insert key e (evicted c key));
  unique = insert-IsUnique key e (evicted c key) (evicted-IsUnique c key b.unique);
}

new-IsBounded : (n : ℕ) → IsBounded (new n)
unfolding new
new-IsBounded zero = record { room = omega arith; size = omega arith; unique = tt }
new-IsBounded (suc n) = record { room = omega arith; size = omega arith; unique = tt }

module _ {D : Type 0} (disk : Option (DiskTier D)) where
  from_disk-IsBounded :
      (key : Str) (now : ℕ) (c : ResponseCache) (r : Option Entry × D)
      → IsBounded c
      → IsBounded (from_disk disk key now c r).1.0
  unfolding from_disk
  from_disk-IsBounded key now c (none, d) b = b
  from_disk-IsBounded key now c (some e, d) b = insert_memory-IsBounded key e c b

  in_memory-IsBounded :
      (o : Option Entry) (key : Str) (now : ℕ) (c : ResponseCache) (d : D)
      → IsBounded c
      → IsBounded (in_memory disk o key now (c, d)).1.0
  in_memory-IsBounded (some e) key now c d b = b
  in_memory-IsBounded none key now c d b =
      from_disk-IsBounded key now c (read_disk disk disk key d) b

-- A new cache is within its capacity of at least one entry, under distinct keys, and storing a
-- response and looking one up keep every such cache so, with a disk tier or without.
pub operations-IsBounded :
    {D : Type 0} (disk : Option (DiskTier D)) (n : ℕ) (c : ResponseCache) (d : D) (key : Str)
    (e : Entry) (now : ℕ)
    → IsBounded c
    → IsBounded (new n)
      × IsBounded (put disk key e (c, d)).0
      × IsBounded (lookup disk key now (c, d)).1.0
unfolding put lookup
operations-IsBounded disk n c d key e now b = (
  new-IsBounded n,
  insert_memory-IsBounded key e c b,
  in_memory-IsBounded disk (get key c.entries) key now c d b,
)
