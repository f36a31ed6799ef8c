-- ===== src/Str.antt =====
-- The operations of Rust's `str` that the sources call. A text is the list of its code points.
pub mod Laws
pub mod Utf8
use Prim.Native.Char.{code}
use Prim.Native.String.{String}
use zaphyl.Prelude.{
  ℕ, ◌+◌, ◌-◌, ◌*◌, Bool, true, false, ◌&&◌, ◌||◌, Option, none, some, List, [], ◌∷◌, map, ltb, leb,
  ◌==◌, if◌then◌else◌, any, is_some,
}
use mathlib.Core.List.{reverse}

abbrev pub Str : Type 0
Str = List ℕ

-- A literal of the source, as its code points.
abbrev pub lit : String → Str
lit String.[] = []
lit (String.◌∷◌ c s) = code c ∷ lit s

unfoldable pub str_eq : Str → Str → Bool
str_eq [] [] = true
str_eq [] (y ∷ ys) = false
str_eq (x ∷ xs) [] = false
str_eq (x ∷ xs) (y ∷ ys) = x == y && str_eq xs ys

-- `char::is_whitespace`: Unicode's `White_Space` property.
unfoldable pub is_whitespace : ℕ → Bool
is_whitespace c =
    (leb 0x9 c && leb c 0xd)
    || c == 0x20
    || c == 0x85
    || c == 0xa0
    || c == 0x1680
    || (leb 0x2000 c && leb c 0x200a)
    || c == 0x2028
    || c == 0x2029
    || c == 0x202f
    || c == 0x205f
    || c == 0x3000

unfoldable pub drop_while : (ℕ → Bool) → Str → Str
drop_while p [] = []
drop_while p (c ∷ s) = elim (p c) [ true ↦ drop_while p s | false ↦ c ∷ s ]

-- Drops the longest suffix whose characters all pass the test.
unfoldable pub trim_end_by : (ℕ → Bool) → Str → Str
trim_end_by p [] = []
trim_end_by p (c ∷ s) = elim (trim_end_by p s) [
  | [] ↦ if p c then [] else c ∷ []
  | d ∷ t ↦ c ∷ d ∷ t
]

unfoldable pub trim : Str → Str
unfolding drop_while trim_end_by is_whitespace
trim s = trim_end_by is_whitespace (drop_while is_whitespace s)

-- `trim_end_matches('/')` and the like.
unfoldable pub trim_end_matches : ℕ → Str → Str
unfolding trim_end_by
trim_end_matches c s = trim_end_by (λ d. d == c) s

unfoldable pub to_lower : ℕ → ℕ
to_lower c = if leb b'A' c && leb c b'Z' then c + 32 else c

unfoldable pub to_ascii_lowercase : Str → Str
unfolding to_lower
to_ascii_lowercase s = map to_lower s

unfoldable pub eq_ignore_ascii_case : Str → Str → Bool
unfolding to_ascii_lowercase str_eq
eq_ignore_ascii_case a b = str_eq (to_ascii_lowercase a) (to_ascii_lowercase b)

-- `s.strip_prefix(p)`.
unfoldable pub strip_prefix : Str → Str → Option Str
strip_prefix [] s = some s
strip_prefix (p ∷ ps) [] = none
strip_prefix (p ∷ ps) (c ∷ s) = if p == c then strip_prefix ps s else none

unfoldable pub starts_with : Str → Str → Bool
unfolding strip_prefix
starts_with p s = is_some (strip_prefix p s)

unfoldable pub ends_with : Str → Str → Bool
unfolding strip_prefix
ends_with p s = is_some (strip_prefix (reverse p) (reverse s))

unfoldable pub contains : ℕ → Str → Bool
contains c s = any (λ d. d == c) s

-- `s.split(c)`: the first piece, and the pieces behind it.
unfoldable pub split_first : ℕ → Str → Str × List Str
split_first c [] = ([], [])
split_first c (d ∷ s) =
    let (piece, more) = split_first c s in if d == c then ([], piece ∷ more) else (d ∷ piece, more)

unfoldable pub split : ℕ → Str → List Str
unfolding split_first
split c s = let (piece, more) = split_first c s in piece ∷ more

-- `s.split(c).next()`, which is never `None`.
unfoldable pub before : ℕ → Str → Str
unfolding split_first
before c s = (split_first c s).0

-- `s.rsplit_once(c)`: the text before and behind the last `c`.
unfoldable pub rsplit_once : ℕ → Str → Option (Str × Str)
rsplit_once c [] = none
rsplit_once c (d ∷ s) = elim (rsplit_once c s) [
  | some (a, b) ↦ some (d ∷ a, b)
  | none ↦ if d == c then some ([], s) else none
]

unfoldable pub is_digit : ℕ → Bool
is_digit c = leb b'0' c && leb c b'9'

-- The value of a run of digits that goes on from `acc`, if it stays below `bound`.
unfoldable pub parse_digits : ℕ → ℕ → Str → Option ℕ
unfolding is_digit
parse_digits bound acc [] = some acc
parse_digits bound acc (c ∷ s) =
    if is_digit c && ltb (acc * 10 + (c - b'0')) bound
    then parse_digits bound (acc * 10 + (c - b'0')) s
    else none

-- `s.parse::<uN>()` for an unsigned type with `bound` values: an optional `+`, then digits.
unfoldable pub parse_uint : ℕ → Str → Option ℕ
unfolding parse_digits
parse_uint bound [] = none
parse_uint bound (c ∷ []) = if is_digit c then parse_digits bound 0 (c ∷ []) else none
parse_uint bound (c ∷ d ∷ s) =
    if c == b'+' then parse_digits bound 0 (d ∷ s) else parse_digits bound 0 (c ∷ d ∷ s)
