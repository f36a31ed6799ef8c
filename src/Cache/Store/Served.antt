-- ===== src/Cache/Store/Served.antt =====
-- What the cache in memory serves, over any sequence of stored responses.
use zaphyl.Prelude.{
  Option-cases, ◌<◌, ltb, ℕ, ◌≡◌, inl, inr, Option, none, some, List, [], ◌∷◌, arith, leb, not,
  ◌&&◌, length, if◌then◌else◌, Bool-cases,
}
use zaphyl.Str.{Str, str_eq}
use zaphyl.Str.Laws.{str_eq_iff}
use zaphyl.HashMap.{HashMap, get, contains_key}
use zaphyl.HashMap.Laws.{get-insert, get-remove}
use zaphyl.Cache.Store.{
  DiskTier, stale, fresh, put, from_disk, CachedResponse, lookup, hit, Entry, ResponseCache, new,
  soonest, remove_found, evicted, insert_memory,
}

-- The cache after the stored responses, of which the last stands first.
unfoldable pub after : ℕ → List (Str × Entry) → ResponseCache
after n [] = new n
after n ((key, e) ∷ puts) = insert_memory key e (after n puts)

-- The response that was stored last under the key.
pub last_put : Str → List (Str × Entry) → Option Entry
last_put key [] = none
last_put key ((k, e) ∷ puts) = if str_eq k key then some e else last_put key puts

remove_found-get :
    (o : Option (Str × ℕ)) (key : Str) (e : Entry) (m : HashMap Entry)
    → get key (remove_found o m) ≡ some e
    → get key m ≡ some e
remove_found-get none key e m h = h
remove_found-get (some (k, t)) key e m h = ground (arith, get-remove k key m)

evicted-get :
    (c : ResponseCache) (new_key key : Str) (e : Entry)
    → get key (evicted c new_key) ≡ some e
    → get key c.entries ≡ some e
unfolding evicted
evicted-get c new_key key e h =
    elim (Bool-cases
      (leb c.max_entries (length c.entries) && not (contains_key new_key c.entries))) [
        | inr room ↦ rw room at h
        | inl full ↦ remove_found-get (soonest c.entries) key e c.entries (rw full at h)
      ]

after-get :
    (n : ℕ) (puts : List (Str × Entry)) (key : Str) (e : Entry)
    → get key (after n puts).entries ≡ some e
    → last_put key puts ≡ some e
unfolding after last_put new insert_memory get
after-get n [] key e h = absurd (ground arith)
after-get n ((k, x) ∷ puts) key e h = ground (
  arith,
  get-insert k key x (evicted (after n puts) k),
  evicted-get (after n puts) k key e,
  after-get n puts key e,
)

hit-fresh :
    (now : ℕ) (e : Entry) (r : CachedResponse) → hit now e ≡ fresh r → (e.1 ≡ r) × (now < e.0)
unfolding hit
hit-fresh now (t, x) r h = ground arith

-- However many responses are stored, in whatever order, a fresh answer of the cache in memory is the
-- response that was stored last under that very key, and it has not expired.
pub lookup-fresh :
    (n : ℕ) (puts : List (Str × Entry)) (key : Str) (now : ℕ) (r : CachedResponse)
    → (lookup {D = Unit {0}} none key now (after n puts, tt)).0 ≡ fresh r
    → (t : ℕ) × (last_put key puts ≡ some (t, r)) × (now < t)
unfolding lookup from_disk
lookup-fresh n puts key now r h = elim (Option-cases (get key (after n puts).entries)) [
  | inl e ↦ absurd (ground (arith, rw e at h))
  | inr ((t, x), e) ↦
      let (same, alive) = hit-fresh now (t, x) r (rw e at h) in
      (t, rw (← same) (after-get n puts key (t, x) e), alive)
]

-- A response is found as soon as it is stored, whatever was stored before: fresh until it expires,
-- and stale from then on.
pub lookup-put :
    (n : ℕ) (puts : List (Str × Entry)) (key : Str) (now t : ℕ) (r : CachedResponse)
    → (lookup none key now (put {D = Unit {0}} none key (t, r) (after n puts, tt))).0
      ≡ (if ltb now t then fresh r else stale r)
unfolding lookup put insert_memory hit
lookup-put n puts key now t r =
    ground (arith, get-insert key key (t, r) (evicted (after n puts) key), str_eq_iff key key)

-- The same for a cache in any state, with or without a tier on disk.
pub lookup-put_any :
    {D : Type 0} (disk : Option (DiskTier D)) (key : Str) (now : ℕ) (e : Entry)
    (state : ResponseCache × D)
    → (lookup disk key now (put disk key e state)).0 ≡ hit now e
unfolding lookup put insert_memory
lookup-put_any disk key now e (c, d) =
    ground (arith, get-insert key key e (evicted c key), str_eq_iff key key)

pub hit-live : (now t : ℕ) (r : CachedResponse) → now < t → hit now (t, r) ≡ fresh r
unfolding hit
hit-live now t r h = ground arith
