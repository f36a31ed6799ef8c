-- ===== src/Upstream/Kept.antt =====
-- What a revalidation lets through: a whole body within the limit, and no header that must not be
-- stored.
use zaphyl.Prelude.{
  ℕ, ◌≤◌, ◌≡◌, refl, false, Option, none, some, List, [], ◌∷◌, All, ltb, length, ◌==◌, Bool-cases,
  inl, inr, ltb-false→le, Result, ok, err,
}
use zaphyl.Str.{Str}
use zaphyl.Router.{Target}
use zaphyl.Upstream.{
  bounded_body, modified_if, not_modified, failed, Header, Answer, Client, fails, times_out,
  answers, is_skipped_header, kept, Revalidated, modified, classify, conditional_get, revalidate,
  Fetched, received,
}

kept-All : (headers : List Header) → All (λ h. is_skipped_header h.0 ≡ false) (kept headers)
unfolding kept
kept-All [] = tt
kept-All ((name, none) ∷ headers) = kept-All headers
kept-All ((name, some value) ∷ headers) = elim (Bool-cases (is_skipped_header name)) [
  | inl skip ↦ rw skip (kept-All headers)
  | inr keep ↦ rw keep (keep, kept-All headers)
]

-- What holds of a response that a client may get.
abbrev pub IsServable : ℕ → List (Str × Str) → List ℕ → Type 0
IsServable max headers body = (length body ≤ max) × All (λ h. is_skipped_header h.0 ≡ false) headers

abbrev pub IsSafe : ℕ → Revalidated → Type 0
IsSafe max (modified status headers body) = (status ≡ 200) × IsServable max headers body
IsSafe max not_modified = Unit
IsSafe max failed = Unit

modified_if-IsSafe :
    (max : ℕ) (headers : List Header) (body : Option (List ℕ))
    → IsSafe max (modified_if max headers body)
modified_if-IsSafe max headers none = tt
modified_if-IsSafe max headers (some body) = elim (Bool-cases (ltb max (length body))) [
  | inl large ↦ rw large tt
  | inr fits ↦ rw fits (refl, (ltb-false→le _ _ fits, kept-All headers))
]

classify-IsSafe : (max : ℕ) (a : Answer) → IsSafe max (classify max a)
unfolding classify
classify-IsSafe max fails = tt
classify-IsSafe max times_out = tt
classify-IsSafe max (answers status headers body) = elim (Bool-cases (status == 304)) [
  | inl unchanged ↦ rw unchanged tt
  | inr other ↦ elim (Bool-cases (status == 200)) [
    | inl found ↦ rw (other, found) (modified_if-IsSafe max headers body)
    | inr strange ↦ rw (other, strange) tt
  ]
]

-- Whatever the origin answers, a revalidation that gives a new response gives one with status 200, a
-- body within the limit, and no header that concerns the connection or the framing.
pub revalidate-IsSafe :
    (client : Client) (target : Target) (path_and_query host tag : Str) (timeout : Option ℕ)
    (max : ℕ)
    → IsSafe max (revalidate client target path_and_query host tag timeout max)
unfolding revalidate
revalidate-IsSafe client target path_and_query host tag timeout max =
    elim (Bool-cases (client.builds (conditional_get target path_and_query host tag))) [
      | inl built ↦ rw built (
          classify-IsSafe max
            (client.send timeout (conditional_get target path_and_query host tag)))
      | inr broken ↦ rw broken tt
    ]

-- A body that is too large is an error of the fetch, never a part of a body.
abbrev pub IsWhole : ℕ → Result Str Fetched → Type 0
IsWhole max (err e) = Unit
IsWhole max (ok fetched) = IsServable max fetched.headers fetched.body

bounded_body-IsWhole :
    (max status : ℕ) (headers : List Header) (body : Option (List ℕ))
    → IsWhole max (bounded_body max status headers body)
bounded_body-IsWhole max status headers none = tt
bounded_body-IsWhole max status headers (some body) = elim (Bool-cases (ltb max (length body))) [
  | inl large ↦ rw large tt
  | inr fits ↦ rw fits (ltb-false→le _ _ fits, kept-All headers)
]

received-IsWhole : (max : ℕ) (a : Answer) → IsWhole max (received max a)
received-IsWhole max fails = tt
received-IsWhole max times_out = tt
received-IsWhole max (answers status headers body) = bounded_body-IsWhole max status headers body
