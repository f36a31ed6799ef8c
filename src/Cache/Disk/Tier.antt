-- ===== src/Cache/Disk/Tier.antt =====
-- The directory of the tier: what a read gives after a write, how many files there are, and the tier
-- behind the cache in memory.
use zaphyl.Prelude.{
  ℕ, ◌*◌, ◌/◌, ◌^◌, ◌≤◌, ◌<◌, ◌≡◌, ◌≢◌, refl, ap, true, Option, none, some, List, [], ◌∷◌, leb,
  ◌==◌, ==_refl, length, any, arith, Bool-cases, Option-cases, inl, inr,
}
use zaphyl.Str.{Str}
use zaphyl.Str.Laws.{str_eq_iff}
use zaphyl.Cache.Store
use zaphyl.Cache.Store.{
  CachedResponse, Entry, DiskTier, ResponseCache, Lookup, hit, lookup, from_disk,
}
use zaphyl.Cache.Disk.Format.{Panics, returns, panics, Decoded, decode, encode}
use zaphyl.Cache.Disk.Format.RoundTrip.{IsStorable, decode-encode}
use zaphyl.Cache.Disk.{
  file_of, map_panics, File, Directory, DiskStore, Outcome, write_fails, rename_fails, renamed,
  named, without, oldest, evict, if_key, get, put,
}

length-without-le : (n : ℕ) (files : List File) → length (without n files) ≤ length files
unfolding without
length-without-le n [] = omega arith
length-without-le n (f ∷ files) = ground (arith, length-without-le n files)

length-without-lt :
    (n : ℕ) (files : List File)
    → any (λ f. f.name == n) files ≡ true
    → length (without n files) < length files
unfolding without
length-without-lt n [] h = cc
length-without-lt n (f ∷ files) h =
    ground (arith, length-without-lt n files, length-without-le n files)

oldest-named :
    (files : List File) (g : File)
    → oldest files ≡ some g
    → any (λ f. f.name == g.name) files ≡ true
unfolding oldest
oldest-named [] g h = cc
oldest-named (f ∷ files) g h = elim (Option-cases (oldest files)) [
  | inl nothing ↦ ground (arith, ==_refl g.name, rw nothing at h)
  | inr (k, e) ↦ ground (arith, ==_refl g.name, rw e at h, oldest-named files k e)
]

oldest-none : (files : List File) → oldest files ≡ none → files ≡ []
unfolding oldest
oldest-none [] h = refl
oldest-none (f ∷ files) h = absurd (ground arith)

evict-room :
    (store : DiskStore) (d : Directory)
    → 0 < store.max_entries
    → length d.files ≤ store.max_entries
    → length (evict store d).files < store.max_entries
unfolding evict
evict-room store d some_room h = elim (Bool-cases (leb store.max_entries (length d.files))) [
  | inr room ↦ rw room (ground arith)
  | inl full ↦ elim (Option-cases (oldest d.files)) [
    | inl e ↦ absurd (ground (arith, ap (λ (fs : List File). length fs) (oldest-none d.files e)))
    | inr (g, e) ↦
        let less = length-without-lt g.name d.files (oldest-named d.files g e) in
        rw (full, e) (omega arith)
  ]
]

named_first :
    (n now : ℕ) (bytes : List ℕ) (files : List File)
    → named n (file_of n now bytes ∷ files) ≡ some (file_of n now bytes)
named_first n now bytes files = ground (arith, ==_refl n)

module _ (hash : Str → ℕ) where
  -- However a write ends, the directory holds no more files than entries are allowed.
  pub put-bounded :
      (store : DiskStore) (outcome : Outcome) (key : Str) (entry : Entry) (d : Directory)
      → 0 < store.max_entries
      → length d.files ≤ store.max_entries
      → length (put hash store outcome key entry d).files ≤ store.max_entries
  unfolding put
  put-bounded store (write_fails part) key entry d some_room h =
      let room = evict-room store d some_room h in omega arith
  put-bounded store rename_fails key entry d some_room h =
      let room = evict-room store d some_room h in omega arith
  put-bounded store (renamed now) key entry d some_room h =
      let room = evict-room store d some_room h in
      omega (arith, length-without-le (hash key) (evict store d).files)

  -- A write that fails, at whatever point and however many of its bytes it leaves, changes what is
  -- read under no key, but for the entry that made room for it.
  pub get-put_failed :
      (store : DiskStore) (outcome : Outcome) (key other : Str) (entry : Entry) (d : Directory)
      → ((now : ℕ) → outcome ≢ renamed now)
      → get hash other (put hash store outcome key entry d) ≡ get hash other (evict store d)
  unfolding get put
  get-put_failed store (write_fails part) key other entry d h = refl
  get-put_failed store rename_fails key other entry d h = refl
  get-put_failed store (renamed now) key other entry d h = absurd (h now refl)

  -- A response that was written is read back under its key, its expiry rounded down to seconds.
  pub get-put :
      (store : DiskStore) (now : ℕ) (key : Str) (expiry : ℕ) (response : CachedResponse)
      (d : Directory)
      → IsStorable key response
      → expiry / 1000 < 2 ^ 63
      → length (encode key expiry response) < 2 ^ 64
      → get hash key (put hash store (renamed now) key (expiry, response) d)
        ≡ returns (some (expiry / 1000 * 1000, response))
  unfolding get put
  get-put store now key expiry response d ok soon small =
      rw
        (named_first (hash key) now (encode key expiry response)
          (without (hash key) (evict store d).files))
        (rw (decode-encode key expiry response ok soon small) (ground (arith, str_eq_iff key key)))

  -- A read gives an entry only from a file that holds it under that very key, whatever other keys
  -- have the same hash.
  pub get_sound :
      (key : Str) (d : Directory) (entry : Entry)
      → get hash key d ≡ returns (some entry)
      → (f : File) × (named (hash key) d.files ≡ some f)
        × (decode f.bytes ≡ returns (some (key, entry)))
  unfolding get
  get_sound key d entry h = elim (Option-cases (named (hash key) d.files)) [
    | inl e ↦ absurd (ground (arith, rw e at h))
    | inr (f, e) ↦ (f, e, from_file key entry f (decode f.bytes) (rw e at h))
  ]
    where
      from_file :
          (key : Str) (entry : Entry) (f : File) (r : Panics (Option Decoded))
          → map_panics (if_key key) r ≡ returns (some entry)
          → r ≡ returns (some (key, entry))
      from_file key entry f panics e = absurd (ground arith)
      from_file key entry f (returns none) e = absurd (ground arith)
      from_file key entry f (returns (some (k, x))) e = ground (arith, str_eq_iff k key)

  -- A panic of the read, which no file that `put` wrote causes, is no entry.
  abbrev or_none : Panics (Option Entry) → Option Entry
  or_none (returns o) = o
  or_none panics = none

  -- The tier that the cache in memory takes, for a store and what its writes come to.
  abbrev pub tier : DiskStore → (Directory → Outcome) → DiskTier Directory
  tier store outcome = record {
    read = λ key d. (or_none (get hash key d), d);
    write = λ key entry d. put hash store (outcome d) key entry d;
  }

  -- The response that was stored last before a restart, if its file could be written and renamed, is
  -- served again after it, with an empty memory: fresh until its expiry in whole seconds, and stale
  -- from then on. Responses stored before it may have been evicted from the disk by then.
  pub lookup-restart :
      (store : DiskStore) (outcome : Directory → Outcome) (n written_at now : ℕ) (key : Str)
      (expiry : ℕ) (response : CachedResponse) (c : ResponseCache) (d : Directory)
      → outcome d ≡ renamed written_at
      → IsStorable key response
      → expiry / 1000 < 2 ^ 63
      → length (encode key expiry response) < 2 ^ 64
      → (lookup
          (some (tier store outcome))
          key
          now
          (Store.new n, (Store.put (some (tier store outcome)) key (expiry, response) (c, d)).1)).0
        ≡ hit now (expiry / 1000 * 1000, response)
  unfolding lookup from_disk Store.new Store.put zaphyl.HashMap.get
  lookup-restart store outcome n written_at now key expiry response c d e ok soon small =
      rw e (rw (get-put store written_at key expiry response d ok soon small) refl)
