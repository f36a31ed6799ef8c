-- ===== src/Cache/Key.antt =====
-- crates/zaphyl-core/src/cache.rs: the cache key, with its canonical form of `Accept-Encoding`.
-- `sort` on texts is an insertion sort in the order of their code points, which is the order of their
-- UTF-8 bytes; equal texts cannot be told apart, so any sort gives this list.
use zaphyl.Prelude.{
  ℕ, Bool, true, false, not, ◌&&◌, ◌||◌, Option, none, some, List, [], ◌∷◌, ◌++◌, map, ◌==◌, ltb,
  if◌then◌else◌, unwrap_or, is_empty,
}
use zaphyl.Str.{Str, lit, str_eq, trim, split, before, to_ascii_lowercase}
pub mod Canonical
pub mod Injective

pub str_leb : Str → Str → Bool
str_leb [] b = true
str_leb (x ∷ a) [] = false
str_leb (x ∷ a) (y ∷ b) = ltb x y || (x == y && str_leb a b)

pub insert_sorted : Str → List Str → List Str
insert_sorted t [] = t ∷ []
insert_sorted t (u ∷ ts) = if str_leb t u then t ∷ u ∷ ts else u ∷ insert_sorted t ts

pub sort : List Str → List Str
unfolding insert_sorted
sort [] = []
sort (t ∷ ts) = insert_sorted t (sort ts)

-- `dedup` drops an item that is equal to the one before it.
pub dedup_after : Str → List Str → List Str
dedup_after t [] = []
dedup_after t (u ∷ ts) = if str_eq t u then dedup_after t ts else u ∷ dedup_after u ts

pub dedup : List Str → List Str
unfolding dedup_after
dedup [] = []
dedup (t ∷ ts) = t ∷ dedup_after t ts

pub join : Str → List Str → Str
join sep [] = []
join sep (t ∷ []) = t
join sep (t ∷ u ∷ ts) = t ++ (sep ++ join sep (u ∷ ts))

-- The coding that one part of the header names.
pub coding_of : Str → Str
coding_of part = to_ascii_lowercase (trim (before b';' part))

-- The codings of the parts, but for the empty ones.
pub codings : List Str → List Str
unfolding coding_of
codings [] = []
codings (part ∷ parts) =
    if is_empty (coding_of part) then codings parts else coding_of part ∷ codings parts

pub normalize_accept_encoding : Option Str → Str
unfolding codings sort dedup join
normalize_accept_encoding accept_encoding =
    join (lit ",") (dedup (sort (codings (split b',' (unwrap_or accept_encoding [])))))

-- `\x1f`.
abbrev pub unit_separator : ℕ
unit_separator = 0x1f

unfoldable pub key : Str → Str → Option Str → Str
unfolding normalize_accept_encoding
key host path_and_query accept_encoding =
    host ++ (path_and_query ++ unit_separator ∷ normalize_accept_encoding accept_encoding)
