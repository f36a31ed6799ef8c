-- ===== src/Cache/Store/Others.antt =====
-- What the others who share the cache do between two requests for one key: they store under other
-- keys, look keys up, and the files of the tier on disk change.
use zaphyl.Prelude.{
  Bool, false, not, ◌&&◌, ℕ, ◌≡◌, refl, ◌∙◌, Option, none, some, List, arith, leb, length,
  Bool-cases, Option-cases, inl, inr,
}
use zaphyl.Str.{Str, str_eq}
use zaphyl.Str.Laws.{str_eq_iff}
use zaphyl.HashMap.{get, contains_key}
use zaphyl.HashMap.Laws.{get-insert, get-remove}
use zaphyl.Cache.Store.{
  ResponseCache, DiskTier, Entry, soonest, remove_found, evicted, insert_memory, from_disk, lookup,
  hit, put,
}

abbrev pub is_named : Str → Option (Str × ℕ) → Bool
is_named key none = false
is_named key (some (k, expiry)) = str_eq k key

-- Making room for `other` takes the entry of `key` away: the cache is full, `other` is new, and the
-- entry of `key` is the one that expires soonest.
unfoldable pub evicts : ResponseCache → Str → Str → Bool
evicts c other key =
    leb c.max_entries (length c.entries)
    && not (contains_key other c.entries)
    && is_named key (soonest c.entries)

remove_found-other :
    (o : Option (Str × ℕ)) (key : Str) (m : List (Str × Entry))
    → is_named key o ≡ false
    → get key (remove_found o m) ≡ get key m
remove_found-other none key m h = refl
remove_found-other (some (k, t)) key m h = ground (arith, get-remove k key m)

evicted-spares :
    (c : ResponseCache) (other key : Str)
    → evicts c other key ≡ false
    → get key (evicted c other) ≡ get key c.entries
unfolding evicted evicts
evicted-spares c other key h =
    elim (Bool-cases (leb c.max_entries (length c.entries) && not (contains_key other c.entries))) [
      | inr room ↦ rw room refl
      | inl full ↦ rw full (remove_found-other (soonest c.entries) key c.entries (ground arith))
    ]

insert_memory-other :
    (c : ResponseCache) (other key : Str) (e : Entry)
    → str_eq other key ≡ false
    → evicts c other key ≡ false
    → get key (insert_memory other e c).entries ≡ get key c.entries
unfolding insert_memory
insert_memory-other c other key e differs spared =
    rw (get-insert other key e (evicted c other), differs) (evicted-spares c other key spared)

-- What is stored is in memory.
pub insert_memory-same :
    (c : ResponseCache) (key : Str) (e : Entry) → get key (insert_memory key e c).entries ≡ some e
unfolding insert_memory
insert_memory-same c key e =
    ground (arith, get-insert key key e (evicted c key), str_eq_iff key key)

module _ {D : Type 0} (disk : Option (DiskTier D)) (key : Str) where
  -- The state of the cache later: no step stores under the key, and none evicts its entry.
  pub data Others (s : ResponseCache × D) : ResponseCache × D → Type 0 where
    at_once : Others s s
    stored :
        {c : ResponseCache} {d : D} (other : Str) (e : Entry)
        → Others s (c, d)
        → str_eq other key ≡ false
        → evicts c other key ≡ false
        → Others s (put disk other e (c, d))
    looked_up :
        {c : ResponseCache} {d : D} (other : Str) (now : ℕ)
        → Others s (c, d)
        → evicts c other key ≡ false
        → Others s (lookup disk other now (c, d)).1
    disk_changed : {c : ResponseCache} {d : D} (d' : D) → Others s (c, d) → Others s (c, d')

  from_disk-get :
      (other : Str) (now : ℕ) (c : ResponseCache) (e : Entry) (read : Option Entry × D)
      → str_eq other key ≡ false
      → evicts c other key ≡ false
      → get key c.entries ≡ some e
      → get key (from_disk disk other now c read).1.0.entries ≡ some e
  unfolding from_disk
  from_disk-get other now c e (none, d) differs spared h = h
  from_disk-get other now c e (some found, d) differs spared h =
      insert_memory-other c other key found differs spared ∙ h

  lookup-get :
      (other : Str) (now : ℕ) (c : ResponseCache) (d : D) (e : Entry)
      → evicts c other key ≡ false
      → get key c.entries ≡ some e
      → get key (lookup disk other now (c, d)).1.0.entries ≡ some e
  unfolding lookup
  lookup-get other now c d e spared h = elim (Option-cases (get other c.entries)) [
    | inr (found, there) ↦ rw there h
    | inl absent ↦ rw absent (
        from_disk-get other now c e _
          (elim (Bool-cases (str_eq other key)) [
            | inr differs ↦ differs
            | inl same ↦ absurd (ground (arith, str_eq_iff other key))
          ])
          spared h)
  ]

  -- Whatever the others do, the entry of the key stays.
  pub Others-get :
      {s s' : ResponseCache × D} (e : Entry)
      → Others s s'
      → get key s.0.entries ≡ some e
      → get key s'.0.entries ≡ some e
  unfolding put
  Others-get e at_once h = h
  Others-get e (stored {c} {d} other x before differs spared) h =
      insert_memory-other c other key x differs spared ∙ Others-get e before h
  Others-get e (looked_up {c} {d} other now before spared) h =
      lookup-get other now c d e spared (Others-get e before h)
  Others-get e (disk_changed d' before) h = Others-get e before h

  -- What is stored under the key is found later, fresh or stale.
  pub lookup-Others :
      (e : Entry) (now : ℕ) (s s' : ResponseCache × D)
      → Others (put disk key e s) s'
      → (lookup disk key now s').0 ≡ hit now e
  unfolding put lookup
  lookup-Others e now (c, d) (c', d') later =
      let there : get key c'.entries ≡ some e = Others-get e later (insert_memory-same c key e) in
      rw there refl
