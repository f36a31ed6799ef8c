-- ===== src/Challenge/Serving.antt =====
-- What the store answers to a request path, and how registering and removing change it.
use zaphyl.Prelude.{
  not, ◌&&◌, false, ◌||◌, ◌≡◌, ◌≢◌, ◌↔◌, refl, Option, none, some, [], ◌∷◌, ◌++◌, if◌then◌else◌,
  is_empty, arith, Option-cases, inl, inr,
}
use zaphyl.Str.{Str, str_eq, strip_prefix, contains}
use zaphyl.Str.Laws.{strip_prefix→append, strip_prefix-append}
use zaphyl.HashMap
use zaphyl.HashMap.Laws.{get-insert, get-remove}
use zaphyl.Challenge.{ChallengeStore, well_known_prefix, insert, remove, response_for}

-- The answer for a token, whatever the prefix is.
abbrev pub Serves : Str → Str → Str → ChallengeStore → Type 0
Serves prefix path body s =
    (token : Str) × (path ≡ prefix ++ token)
    × (token ≢ [])
    × (contains b'/' token ≡ false)
    × (HashMap.get token s.tokens ≡ some body)

guard→found :
    (token : Str) (r : Option Str) {body : Str}
    → (if is_empty token || contains b'/' token then none else r) ≡ some body
    → (token ≢ []) × (contains b'/' token ≡ false) × (r ≡ some body)
guard→found [] r h = cc
guard→found (c ∷ t) r h = ground arith

found→guard :
    (token : Str) (r : Option Str) {body : Str}
    → token ≢ []
    → contains b'/' token ≡ false
    → r ≡ some body
    → (if is_empty token || contains b'/' token then none else r) ≡ some body
found→guard [] r ne plain e = absurd (ne refl)
found→guard (c ∷ t) r ne plain e = rw (plain, e) refl

-- A body is served exactly for the prefix followed by a token that is one path segment, and it is
-- the one registered for that token.
pub response_for-eq-some_iff :
    (path body : Str) (s : ChallengeStore)
    → (response_for path s ≡ some body) ↔ Serves well_known_prefix path body s
unfolding response_for
response_for-eq-some_iff path body s = (to, from)
  where
    to : response_for path s ≡ some body → Serves well_known_prefix path body s
    to h = elim (Option-cases (strip_prefix well_known_prefix path)) [
      | inl e ↦ cc (rw e at h)
      | inr (token, e) ↦
          let (ne, plain, found) = guard→found token _ (rw e at h) in
          (token, strip_prefix→append well_known_prefix path token e, ne, plain, found)
    ]

    from : Serves well_known_prefix path body s → response_for path s ≡ some body
    from (token, e, ne, plain, found) =
        rw (e, strip_prefix-append well_known_prefix token) (found→guard token _ ne plain found)

-- Registering a challenge changes the answer at its own path only, where a token that is one path
-- segment gets its key authorization.
pub response_for-insert :
    (token key_authorization other : Str) (s : ChallengeStore)
    → response_for (well_known_prefix ++ other) (insert token key_authorization s) ≡ (
        if str_eq token other && not (is_empty other || contains b'/' other)
        then some key_authorization
        else response_for (well_known_prefix ++ other) s)
unfolding response_for insert
response_for-insert token key_authorization other s =
    rw (strip_prefix-append well_known_prefix other)
      (ground (arith, get-insert token other key_authorization s.tokens))

-- Removing a challenge leaves no answer at its path, and every other answer as it was.
pub response_for-remove :
    (token other : Str) (s : ChallengeStore)
    → response_for (well_known_prefix ++ other) (remove token s)
      ≡ (if str_eq token other then none else response_for (well_known_prefix ++ other) s)
unfolding response_for remove
response_for-remove token other s =
    rw (strip_prefix-append well_known_prefix other)
      (ground (arith, get-remove token other s.tokens))
