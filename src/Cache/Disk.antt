-- ===== src/Cache/Disk.antt =====
-- crates/zaphyl-core/src/cache.rs, `DiskStore`: one file for each entry. A file is named by the hash
-- of its key; the number stands for its hexadecimal digits. The hash, and what the file system does
-- with a write, are arguments.
pub mod Format
pub mod Tier
use zaphyl.Prelude.{
  ℕ, zero, suc, ◌+◌, ◌≤◌, Bool, true, false, not, ◌&&◌, Option, none, some, List, [], ◌∷◌, ltb, leb,
  ◌==◌, if◌then◌else◌, length, find, and_then,
}
use zaphyl.Str.{Str, str_eq}
use zaphyl.Cache.Store.{CachedResponse, Entry, at_least_one}
use zaphyl.Cache.Disk.Format.{Panics, returns, panics, Decoded, decode, encode}

-- The files without an extension: name, time of modification, contents. The files in progress, which
-- have the extension `tmp`, are kept apart.
pub record File : Type 0 where
  pub name : ℕ
  pub modified : ℕ
  pub bytes : List ℕ

pub record Directory : Type 0 where
  pub files : List File
  pub in_progress : List File

pub record DiskStore : Type 0 where
  pub max_entries : ℕ

pub new : ℕ → DiskStore
new max_entries = record { max_entries = at_least_one max_entries }

abbrev pub named : ℕ → List File → Option File
named n files = find (λ f. f.name == n) files

-- Removing a file, or writing over it.
pub without : ℕ → List File → List File
without n [] = []
without n (f ∷ files) = let rest = without n files in if f.name == n then rest else f ∷ rest

-- The first of the files that were modified first, as the stable sort puts it.
pub oldest : List File → Option File
oldest [] = none
oldest (f ∷ files) = elim (oldest files) [
  | none ↦ some f
  | some g ↦ if leb f.modified g.modified then some f else some g
]

abbrev pub remove_oldest : Option File → List File → List File
remove_oldest none files = files
remove_oldest (some f) files = without f.name files

pub evict : DiskStore → Directory → Directory
unfolding oldest without
evict store d =
    if leb store.max_entries (length d.files)
    then record d { files = remove_oldest (oldest d.files) d.files }
    else d

-- What becomes of a write: it fails, and may leave some bytes in the file in progress; or it succeeds,
-- and the rename fails; or both succeed, at the time given.
pub data Outcome : Type 0 where
  write_fails : List ℕ → Outcome
  rename_fails : Outcome
  renamed : ℕ → Outcome

abbrev pub file_of : ℕ → ℕ → List ℕ → File
file_of name modified bytes = record { name = name; modified = modified; bytes = bytes }

abbrev pub written : Outcome → ℕ → List ℕ → Directory → Directory
written (write_fails part) n bytes d = record d {
  in_progress = file_of n 0 part ∷ without n d.in_progress;
}
written rename_fails n bytes d = record d {
  in_progress = file_of n 0 bytes ∷ without n d.in_progress;
}
written (renamed now) n bytes d = record {
  files = file_of n now bytes ∷ without n d.files;
  in_progress = without n d.in_progress;
}

-- The guard against a collision of hashes.
abbrev pub if_key : Str → Option Decoded → Option Entry
if_key key none = none
if_key key (some (stored_key, entry)) = if str_eq stored_key key then some entry else none

abbrev pub map_panics {ℓ κ} : {A : Type ℓ} {B : Type κ} → (A → B) → Panics A → Panics B
map_panics f (returns a) = returns (f a)
map_panics f panics = panics

abbrev pub read_file : Str → Option File → Panics (Option Entry)
read_file key none = returns none
read_file key (some f) = map_panics (if_key key) (decode f.bytes)

module _ (hash : Str → ℕ) where
  pub get : Str → Directory → Panics (Option Entry)
  get key d = read_file key (named (hash key) d.files)

  pub put : DiskStore → Outcome → Str → Entry → Directory → Directory
  unfolding evict
  put store outcome key entry d =
      written outcome (hash key) (encode key entry.0 entry.1) (evict store d)
