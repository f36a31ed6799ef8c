-- ===== src/Cli/Quoted.antt =====
-- That a basic string of TOML reads back as the text that was escaped.
use zaphyl.Prelude.{
  ℕ, ◌≡◌, refl, Bool, true, false, not, ◌&&◌, ◌||◌, Option, none, some, [], ◌∷◌, ◌++◌, ◌==◌, ==_iff,
  ltb, if◌then◌else◌, All, Bool-cases, inl, inr,
}
use zaphyl.Str.{Str}
use zaphyl.Cli.{replace, quote, backslash, toml_escape}

-- The control characters that a basic string may not hold.
abbrev pub is_control : ℕ → Bool
is_control c = (ltb c 32 && not (c == 9)) || c == 127

abbrev pub front : ℕ → Option (Str × Str) → Option (Str × Str)
front c none = none
front c (some (s, rest)) = some (c ∷ s, rest)

-- The text up to the closing quote, and what is behind it; the flag tells whether a backslash stands
-- before. Of the escapes, those of the quote and the backslash are read.
pub read_basic : Bool → Str → Option (Str × Str)
read_basic escaped [] = none
read_basic true (c ∷ s) =
    let rest = read_basic false s in
    if c == quote then front c rest else if c == backslash then front c rest else none
read_basic false (c ∷ s) =
    let rest = read_basic false s in
    let special = read_basic true s in
    if c == quote
    then some ([], s)
    else if c == backslash
    then special
    else if is_control c
    then none
    else front c rest

-- A text without control characters but tabs reads back from its escaped form in quotes, whatever
-- stands behind it.
pub read_basic-toml_escape :
    (s rest : Str)
    → All (λ c. is_control c ≡ false) s
    → read_basic false (toml_escape s ++ quote ∷ rest) ≡ some (s, rest)
unfolding read_basic toml_escape replace
read_basic-toml_escape [] rest h = refl
read_basic-toml_escape (c ∷ s) rest (plain, h) =
    let more = read_basic-toml_escape s rest h in
    elim (Bool-cases (c == backslash)) [
      | inl e ↦ rw ((==_iff c backslash).0 e) (rw more refl)
      | inr e ↦ elim (Bool-cases (c == quote)) [
        | inl q ↦ rw ((==_iff c quote).0 q) (rw more refl)
        | inr q ↦ rw (e, q, more) (rw (q, e, plain) refl)
      ]
    ]
