-- ===== src/Acme.antt =====
-- crates/zaphyl/src/acme.rs: when a certificate is renewed, and what an order registers in the challenge
-- store. The certificates are parsed by x509_parser; the protocol is that of instant_acme. Times are
-- seconds since the epoch.
pub mod Renewed
pub mod Order
use zaphyl.Prelude.{
  ℕ, zero, suc, ◌+◌, ◌-◌, ◌*◌, ◌^◌, Bool, true, false, Option, none, some, List, [], ◌∷◌, ltb, leb,
  if◌then◌else◌, is_some_and, and_then, Result, ok, err,
}
use zaphyl.Str.{Str, lit}
use zaphyl.Challenge.{ChallengeStore, insert}

-- An `i64`: `negsuc n` is `-(n + 1)`.
pub data ℤ : Type 0 where
  pos negsuc : ℕ → ℤ

abbrev pub i64_max : ℕ
i64_max = 2 ^ 63 - 1

abbrev pub at_most : ℕ → ℕ → ℕ
at_most bound n = if leb n bound then n else bound

-- `a.saturating_sub(n)` for an `n` that is not negative: only the lower bound can be met.
unfoldable pub saturating_sub : ℤ → ℕ → ℤ
saturating_sub (pos a) n = if leb n a then pos (a - n) else negsuc (n - a - 1)
saturating_sub (negsuc a) n = negsuc (at_most i64_max (a + n))

-- Whether an `i64` is below one that is not negative.
abbrev pub is_below : ℤ → ℕ → Bool
is_below (pos a) n = ltb a n
is_below (negsuc a) n = true

-- `i64::try_from(days).unwrap_or(i64::MAX).saturating_mul(SECONDS_PER_DAY)`.
unfoldable pub window : ℕ → ℕ
window renew_before_days = at_most i64_max (at_most i64_max renew_before_days * 86400)

-- The seconds of the clock, if it is not before the epoch.
unfoldable pub now_unix : Option ℕ → ℕ
now_unix none = 0
now_unix (some secs) = if leb secs i64_max then secs else 0

-- The end of the certificate's validity, if it can be parsed.
unfoldable pub needs_renewal : Option ℤ → ℕ → ℕ → Bool
unfolding saturating_sub
needs_renewal none now renew_before_secs = true
needs_renewal (some not_after) now renew_before_secs =
    is_below (saturating_sub not_after now) renew_before_secs

-- One round of the renewal loop: whether an order is placed, for the text of the certificate's file.
unfoldable pub is_due : (Str → Option ℤ) → Option Str → Option ℕ → ℕ → Bool
unfolding needs_renewal now_unix window
is_due not_after_of none clock renew_before_days = true
is_due not_after_of (some pem) clock renew_before_days =
    needs_renewal (not_after_of pem) (now_unix clock) (window renew_before_days)

pub data AuthorizationStatus : Type 0 where
  valid pending other : AuthorizationStatus

-- An authorization: the token and the key authorization of its challenge over HTTP, if one is offered,
-- and whether the server takes it that the challenge is ready, with the store as it is then.
pub record Authorization : Type 0 where
  pub status : AuthorizationStatus
  pub challenge : Option (Str × Str)
  pub set_ready : ChallengeStore → Bool

abbrev pub Registered : Type 0
Registered = Result Str (Unit {0}) × ChallengeStore

abbrev pub ready : Bool → (ChallengeStore → Registered) → ChallengeStore → Registered
ready true rest store = rest store
ready false rest store = (err (lit "set_ready"), store)

abbrev pub take_challenge :
    Option (Str × Str)
    → (ChallengeStore → Bool)
    → (ChallengeStore → Registered)
    → ChallengeStore
    → Registered
take_challenge none set_ready rest store = (err (lit "no http-01 challenge offered"), store)
take_challenge (some (token, key_authorization)) set_ready rest store =
    let store' = insert token key_authorization store in ready (set_ready store') rest store'

abbrev pub by_status :
    AuthorizationStatus
    → Option (Str × Str)
    → (ChallengeStore → Bool)
    → (ChallengeStore → Registered)
    → ChallengeStore
    → Registered
by_status valid challenge set_ready rest store = rest store
by_status pending challenge set_ready rest store = take_challenge challenge set_ready rest store
by_status other challenge set_ready rest store =
    (err (lit "unexpected authorization status"), store)

-- The loop over the authorizations of an order, each of which may fail to be fetched.
unfoldable pub authorize : List (Option Authorization) → ChallengeStore → Registered
authorize [] store = (ok tt, store)
authorize (none ∷ results) store = (err (lit "authorization"), store)
authorize (some a ∷ results) store =
    by_status a.status a.challenge a.set_ready (authorize results) store
