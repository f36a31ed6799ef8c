-- ===== src/Router/Paths.antt =====
-- Prefixes on segment boundaries, and the path that is forwarded.
use zaphyl.Prelude.{
  true, ◌≡◌, refl, sym, ◌∙◌, ◌↔◌, ◌⊎◌, inl, inr, Option, none, some, [], ◌∷◌, ◌++◌, arith,
  if◌then◌else◌, is_empty, unwrap_or, append-nil,
}
use zaphyl.Str.{Str, lit, trim_end_matches, strip_prefix}
use zaphyl.Str.Laws.{strip_prefix→append, strip_prefix-append}
use zaphyl.Router.{Route, ends_segment, path_under_prefix, path_matches, rewrite_path}

-- The prefix, without the slashes at its end.
abbrev pub base_of : Str → Str
base_of prefix = trim_end_matches b'/' prefix

-- The path is the base, or goes on behind it with a slash; an empty base takes every path.
abbrev pub IsUnder : Str → Str → Type 0
IsUnder path base = (base ≡ []) ⊎ (path ≡ base) ⊎ ((rest : Str) × (path ≡ base ++ b'/' ∷ rest))

-- What is left behind the base ends a segment: nothing, or a slash and more.
ends_segment-cases :
    (o : Option Str)
    → ends_segment o ≡ true
    → (o ≡ some []) ⊎ ((rest : Str) × (o ≡ some (b'/' ∷ rest)))
unfolding ends_segment strip_prefix
ends_segment-cases none h = cc
ends_segment-cases (some []) h = inl refl
ends_segment-cases (some (c ∷ rest)) h = let e : c ≡ b'/' = ground arith in inr (rest, rw e refl)

under→ :
    (base path : Str)
    → (if is_empty base then true else ends_segment (strip_prefix base path)) ≡ true
    → IsUnder path base
under→ [] path h = inl refl
under→ (b ∷ bs) path h = elim (ends_segment-cases _ h) [
  | inl e ↦ inr (inl (strip_prefix→append (b ∷ bs) path [] e ∙ append-nil _))
  | inr (rest, e) ↦ inr (inr (rest, strip_prefix→append (b ∷ bs) path _ e))
]

→under :
    (base path : Str)
    → IsUnder path base
    → (if is_empty base then true else ends_segment (strip_prefix base path)) ≡ true
unfolding ends_segment strip_prefix
→under [] path h = refl
→under (b ∷ bs) path (inl e) = cc
→under (b ∷ bs) path (inr (inl e)) =
    let cut : strip_prefix (b ∷ bs) path ≡ some [] =
      rw (e ∙ sym (append-nil _)) (strip_prefix-append (b ∷ bs) []) in
    rw cut refl
→under (b ∷ bs) path (inr (inr (rest, e))) =
    let cut : strip_prefix (b ∷ bs) path ≡ some (b'/' ∷ rest) =
      rw e (strip_prefix-append (b ∷ bs) (b'/' ∷ rest)) in
    rw cut refl

-- A path is under a prefix exactly when, with the slashes at the prefix's end dropped, nothing is
-- left of it, or the path is it, or goes on behind it with a slash.
pub path_under_prefix_iff :
    (path prefix : Str) → (path_under_prefix path prefix ≡ true) ↔ IsUnder path (base_of prefix)
unfolding path_under_prefix
path_under_prefix_iff path prefix = (under→ (base_of prefix) path, →under (base_of prefix) path)

-- The forwarded path, as a function of the base and the path.
abbrev forwarded : Str → Str → Str
forwarded base path =
    let rest = unwrap_or (strip_prefix base path) path in if is_empty rest then lit "/" else rest

abbrev pub StartsWithSlash : Str → Type 0
StartsWithSlash path = (rest : Str) × (path ≡ b'/' ∷ rest)

forwarded-rejoins :
    (base path : Str)
    → IsUnder path base
    → (path ≡ base ++ forwarded base path) ⊎ ((path ≡ base) × (forwarded base path ≡ lit "/"))
unfolding strip_prefix
forwarded-rejoins base [] (inl e) = rw e (inr (refl, refl))
forwarded-rejoins base (c ∷ path) (inl e) = rw e (inl refl)
forwarded-rejoins base path (inr (inl e)) =
    let cut : strip_prefix base path ≡ some [] =
      rw (e ∙ sym (append-nil _)) (strip_prefix-append base []) in
    inr (e, rw cut refl)
forwarded-rejoins base path (inr (inr (rest, e))) =
    let cut : strip_prefix base path ≡ some (b'/' ∷ rest) =
      rw e (strip_prefix-append base (b'/' ∷ rest)) in
    inl (rw cut e)

forwarded-StartsWithSlash :
    (base path : Str)
    → IsUnder path base
    → StartsWithSlash path
    → StartsWithSlash (forwarded base path)
unfolding strip_prefix
forwarded-StartsWithSlash base path (inl e) (rest, p) = rw (e, p) (rest, refl)
forwarded-StartsWithSlash base path (inr (inl e)) _ =
    let cut : strip_prefix base path ≡ some [] =
      rw (e ∙ sym (append-nil _)) (strip_prefix-append base []) in
    rw cut ([], refl)
forwarded-StartsWithSlash base path (inr (inr (rest, e))) _ =
    let cut : strip_prefix base path ≡ some (b'/' ∷ rest) =
      rw e (strip_prefix-append base (b'/' ∷ rest)) in
    rw cut (rest, refl)

-- What is forwarded for a path that matches a route with a stripped prefix: behind the prefix it
-- gives the path back, or it is `/` for a path that is the prefix; and it begins with a slash if
-- the path does.
pub rewrite_path_lem :
    (r : Route) (prefix path new_path : Str)
    → r.path_prefix ≡ some prefix
    → path_matches r path ≡ true
    → rewrite_path r path ≡ some new_path
    → ((path ≡ base_of prefix ++ new_path) ⊎ ((path ≡ base_of prefix) × (new_path ≡ lit "/")))
      × (StartsWithSlash path → StartsWithSlash new_path)
unfolding rewrite_path path_matches
rewrite_path_lem r prefix path new_path prefixed matched rewritten =
    let under = (path_under_prefix_iff path prefix).0 (rw prefixed at matched) in
    let same : forwarded (base_of prefix) path ≡ new_path = ground arith in
    rw (← same) (
      forwarded-rejoins (base_of prefix) path under,
      forwarded-StartsWithSlash (base_of prefix) path under,
    )
