-- ===== src/Cache/Store.antt =====
-- crates/zaphyl-core/src/cache.rs, `ResponseCache`: the tier in memory. The tier on disk is an
-- argument: its state, and its two operations, of which `get` may change files (it drops a file that
-- is not readable) and `put` evicts. Times are milliseconds since the epoch.
use zaphyl.Prelude.{
  ℕ, zero, suc, ◌+◌, ◌*◌, ◌^◌, ◌≤◌, ◌<◌, Bool, true, false, not, ◌&&◌, Option, none, some, List, [],
  ◌∷◌, ltb, leb, if◌then◌else◌, find, length, option_map,
}
use zaphyl.Str.{Str, lit, eq_ignore_ascii_case}
use zaphyl.HashMap.{HashMap, get, contains_key, insert, remove}
pub mod Bounded
pub mod Served
pub mod Eviction
pub mod Others

pub record CachedResponse : Type 0 where
  pub status : ℕ
  pub headers : List (Str × Str)
  pub body : List ℕ

abbrev pub header_named : Str → List (Str × Str) → Option Str
header_named name headers =
    option_map (λ h. h.1) (find (λ h. eq_ignore_ascii_case h.0 name) headers)

unfoldable pub etag : CachedResponse → Option Str
etag response = header_named (lit "etag") response.headers

pub data Lookup : Type 0 where
  miss : Lookup
  fresh : CachedResponse → Lookup
  stale : CachedResponse → Lookup

abbrev pub Entry : Type 0
Entry = ℕ × CachedResponse

pub record ResponseCache : Type 0 where
  pub max_entries : ℕ
  pub entries : HashMap Entry

-- The tier on disk, if there is one: `D` is the state of its directory.
pub record DiskTier (D : Type 0) : Type 0 where
  pub read : Str → D → Option Entry × D
  pub write : Str → Entry → D → D

-- `max_entries.max(1)`.
abbrev pub at_least_one : ℕ → ℕ
at_least_one zero = 1
at_least_one (suc n) = suc n

unfoldable pub new : ℕ → ResponseCache
new max_entries = record { max_entries = at_least_one max_entries; entries = [] }

-- `entries.iter().min_by_key(|(_, (expiry, _))| *expiry)`: the first of the entries that expire
-- soonest.
unfoldable pub soonest : HashMap Entry → Option (Str × ℕ)
soonest [] = none
soonest ((k, e) ∷ m) = elim (soonest m) [
  | none ↦ some (k, e.0)
  | some (j, expiry) ↦ if leb e.0 expiry then some (k, e.0) else some (j, expiry)
]

abbrev pub remove_found : Option (Str × ℕ) → HashMap Entry → HashMap Entry
remove_found none m = m
remove_found (some (k, expiry)) m = remove k m

unfoldable pub evicted : ResponseCache → Str → HashMap Entry
unfolding soonest
evicted c key =
    if leb c.max_entries (length c.entries) && not (contains_key key c.entries)
    then remove_found (soonest c.entries) c.entries
    else c.entries

unfoldable pub insert_memory : Str → Entry → ResponseCache → ResponseCache
unfolding evicted
insert_memory key entry c = record c { entries = insert key entry (evicted c key) }

-- Whether `SystemTime::now() + ttl` is a time: the seconds of a `SystemTime` are an `i64`, and a sum
-- beyond them panics.
unfoldable pub in_range : ℕ → ℕ → Bool
in_range now ttl = ltb (now + 1000 * ttl) (1000 * 2 ^ 63)

-- `expiry > now` tells a fresh hit from a stale one.
unfoldable pub hit : ℕ → Entry → Lookup
hit now (expiry, response) = if ltb now expiry then fresh response else stale response

abbrev pub fresh_only : Lookup → Option CachedResponse
fresh_only miss = none
fresh_only (fresh response) = some response
fresh_only (stale response) = none

module _ {D : Type 0} (disk : Option (DiskTier D)) where
  -- What the disk holds is put back into memory.
  unfoldable pub from_disk :
      Str → ℕ → ResponseCache → Option Entry × D → Lookup × (ResponseCache × D)
  unfolding hit
  from_disk key now c (none, d) = (miss, (c, d))
  from_disk key now c (some entry, d) = (hit now entry, (insert_memory key entry c, d))

  abbrev pub read_disk : Option (DiskTier D) → Str → D → Option Entry × D
  read_disk none key d = (none, d)
  read_disk (some t) key d = t.read key d

  abbrev pub write_disk : Option (DiskTier D) → Str → Entry → D → D
  write_disk none key entry d = d
  write_disk (some t) key entry d = t.write key entry d

  abbrev pub in_memory : Option Entry → Str → ℕ → ResponseCache × D → Lookup × (ResponseCache × D)
  in_memory (some entry) key now (c, d) = (hit now entry, (c, d))
  in_memory none key now (c, d) = from_disk key now c (read_disk disk key d)

  unfoldable pub lookup : Str → ℕ → ResponseCache × D → Lookup × (ResponseCache × D)
  unfolding from_disk
  lookup key now (c, d) = in_memory (get key c.entries) key now (c, d)

  -- `ResponseCache::get`.
  pub get_fresh : Str → ℕ → ResponseCache × D → Option CachedResponse × (ResponseCache × D)
  unfolding lookup
  get_fresh key now state = let (found, after) = lookup key now state in (fresh_only found, after)

  unfoldable pub put : Str → Entry → ResponseCache × D → ResponseCache × D
  unfolding insert_memory
  put key entry (c, d) = (insert_memory key entry c, write_disk disk key entry d)
