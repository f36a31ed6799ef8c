-- ===== src/Acme/Order/Answered.antt =====
-- That the plain-HTTP front answers every challenge of an order.
use zaphyl.Prelude.{
  ap, ◌≡◌, refl, ◌∙◌, Bool, false, Option, none, some, List, [], ◌∷◌, ◌++◌, is_empty, if◌then◌else◌,
  ok, arith, inl, inr, Bool-cases,
}
use zaphyl.Str.{Str, lit, str_eq, contains}
use zaphyl.Challenge.{ChallengeStore, well_known_prefix, insert, response_for}
use zaphyl.Challenge.Serving.{response_for-insert}
use zaphyl.Proxy.Forwarding.{Http, RequestHeader}
use zaphyl.HttpFront.{NonChallenge, respond}
use zaphyl.Acme.{AuthorizationStatus, valid, pending, other, Authorization, by_status, authorize}

abbrev pub or_before : Option Str → Option Str → Option Str
or_before none before_it = before_it
or_before (some s) before_it = some s

-- The key authorization that an authorization asks for under a token.
abbrev pub offered : Str → AuthorizationStatus → Option (Str × Str) → Option Str
offered token pending (some (t, key_authorization)) =
    if str_eq t token then some key_authorization else none
offered token pending none = none
offered token valid challenge = none
offered token other challenge = none

-- The last one of the order.
unfoldable pub last_offered : Str → List (Option Authorization) → Option Str
last_offered token [] = none
last_offered token (none ∷ results) = last_offered token results
last_offered token (some a ∷ results) =
    or_before (last_offered token results) (offered token a.status a.challenge)

module _ (token : Str) (some_token : is_empty token ≡ false)
    (no_slash : contains b'/' token ≡ false) where
  abbrev served : ChallengeStore → Option Str
  served store = response_for (well_known_prefix ++ token) store

  served-insert :
      (t key_authorization : Str) (store : ChallengeStore)
      → served (insert t key_authorization store)
        ≡ or_before (if str_eq t token then some key_authorization else none) (served store)
  served-insert t key_authorization store =
      rw (response_for-insert t key_authorization token store, some_token, no_slash)
        (elim (Bool-cases (str_eq t token)) [ inl e ↦ rw e refl | inr e ↦ rw e refl ])

  or_before_assoc : (x y z : Option Str) → or_before x (or_before y z) ≡ or_before (or_before x y) z
  or_before_assoc none y z = refl
  or_before_assoc (some s) y z = refl

  or_before-none : (x z : Option Str) → or_before x z ≡ or_before (or_before x none) z
  or_before-none none z = refl
  or_before-none (some s) z = refl

  -- The rest of the order answers as it should, from whatever store.
  Serves : List (Option Authorization) → Type 0
  Serves results =
      (store : ChallengeStore)
      → (authorize results store).0 ≡ ok tt
      → served (authorize results store).1 ≡ or_before (last_offered token results) (served store)

  by_status-Serves :
      (results : List (Option Authorization)) (status : AuthorizationStatus)
      (challenge : Option (Str × Str)) (set_ready : ChallengeStore → Bool) (store : ChallengeStore)
      → Serves results
      → (by_status status challenge set_ready (authorize results) store).0 ≡ ok tt
      → served (by_status status challenge set_ready (authorize results) store).1
        ≡ or_before
            (or_before (last_offered token results) (offered token status challenge))
            (served store)
  unfolding Serves
  by_status-Serves results valid challenge set_ready store ih done =
      ih store done ∙ or_before-none (last_offered token results) (served store)
  by_status-Serves results pending none set_ready store ih done = absurd (ground (arith, done))
  by_status-Serves results pending (some (t, k)) set_ready store ih done =
      elim (Bool-cases (set_ready (insert t k store))) [
        | inl e ↦ rw e (
            ih (insert t k store) (rw e at done)
            ∙ (ap (or_before (last_offered token results)) (served-insert t k store)
                ∙ or_before_assoc (last_offered token results) _ (served store)))
        | inr e ↦ absurd (ground (arith, rw e at done))
      ]
  by_status-Serves results other challenge set_ready store ih done = absurd (ground (arith, done))

  authorize-Serves : (results : List (Option Authorization)) → Serves results
  unfolding Serves authorize last_offered
  authorize-Serves [] store done = refl
  authorize-Serves (none ∷ results) store done = absurd (ground (arith, done))
  authorize-Serves (some a ∷ results) store done =
      by_status-Serves results a.status a.challenge a.set_ready store (authorize-Serves results)
        done

-- Behind an order whose authorizations have all gone through, whatever had been registered before, the
-- front for plain HTTP gives a validator that asks for a token of the order, not empty and without a
-- slash, the key authorization that was offered for it last; and the path of a token that the order does
-- not have is answered as before.
pub authorize-responds :
    (http : Http) (request : RequestHeader) (behavior : NonChallenge)
    (results : List (Option Authorization)) (store : ChallengeStore) (token : Str)
    → (authorize results store).0 ≡ ok tt
    → is_empty token ≡ false
    → contains b'/' token ≡ false
    → request.path ≡ well_known_prefix ++ token
    → ((key_authorization : Str)
        → last_offered token results ≡ some key_authorization
        → respond http request (authorize results store).1 behavior ≡ record {
          status = 200;
          headers = (lit "content-type", lit "text/plain") ∷ [];
          body = key_authorization;
        })
      × (last_offered token results ≡ none
          → respond http request (authorize results store).1 behavior
            ≡ respond http request store behavior)
unfolding respond Serves
authorize-responds http request behavior results store token done some_token no_slash path =
    let served = authorize-Serves token some_token no_slash results store done in
    (λ k e. rw path (rw served (rw e refl)), λ e. rw path (rw served (rw e refl)))
