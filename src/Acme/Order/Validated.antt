-- ===== src/Acme/Order/Validated.antt =====
-- That the authorizations of an order go through, since the front for plain HTTP answers each challenge
-- at the time the authority validates it.
use zaphyl.Prelude.{
  ◌≡◌, refl, Bool, true, false, Option, none, some, List, [], ◌∷◌, ◌++◌, is_empty, ok, All, arith,
}
use zaphyl.Str.{Str, lit, str_eq, contains}
use zaphyl.Str.Laws.{str_eq_iff}
use zaphyl.Challenge.{ChallengeStore, well_known_prefix, insert}
use zaphyl.Challenge.Serving.{response_for-insert}
use zaphyl.Proxy.Forwarding.{Http, RequestHeader}
use zaphyl.HttpFront.{NonChallenge, respond}
use zaphyl.Acme.{AuthorizationStatus, valid, pending, other, Authorization, by_status, authorize}

module _ (http : Http) (behavior : NonChallenge) where
  -- The front, with this store, gives the key authorization to whoever asks for the token.
  abbrev pub Gives : ChallengeStore → Str → Str → Type 0
  Gives store token key_authorization =
      (request : RequestHeader)
      → request.path ≡ well_known_prefix ++ token
      → respond http request store behavior ≡ record {
        status = 200;
        headers = (lit "content-type", lit "text/plain") ∷ [];
        body = key_authorization;
      }

  -- A challenge whose token fits into a path, at an authority that takes it as soon as the front gives
  -- the key authorization.
  abbrev pub IsFair : (ChallengeStore → Bool) → Option (Str × Str) → Type 0
  IsFair set_ready none = ⊥
  IsFair set_ready (some (token, key_authorization)) =
      (is_empty token ≡ false)
      × (contains b'/' token ≡ false)
      × ((store : ChallengeStore) → Gives store token key_authorization → set_ready store ≡ true)

  abbrev pub IsFairBy : AuthorizationStatus → (ChallengeStore → Bool) → Option (Str × Str) → Type 0
  IsFairBy valid set_ready challenge = Unit {0}
  IsFairBy pending set_ready challenge = IsFair set_ready challenge
  IsFairBy other set_ready challenge = ⊥

  -- An authorization that came, is valid already, or is pending with such a challenge.
  abbrev pub IsFairAuthorization : Option Authorization → Type 0
  IsFairAuthorization none = ⊥
  IsFairAuthorization (some a) = IsFairBy a.status a.set_ready a.challenge

  insert-Gives :
      (store : ChallengeStore) (token key_authorization : Str)
      → is_empty token ≡ false
      → contains b'/' token ≡ false
      → Gives (insert token key_authorization store) token key_authorization
  unfolding respond
  insert-Gives store token k some_token no_slash request path =
      let same : str_eq token token ≡ true = ground (arith, str_eq_iff token token) in
      rw path (rw (response_for-insert token k token store, some_token, no_slash, same) refl)

  -- The rest of the order goes through, from whatever store.
  GoesThrough : List (Option Authorization) → Type 0
  GoesThrough results = (store : ChallengeStore) → (authorize results store).0 ≡ ok tt

  by_status-ok :
      (results : List (Option Authorization)) (status : AuthorizationStatus)
      (challenge : Option (Str × Str)) (set_ready : ChallengeStore → Bool) (store : ChallengeStore)
      → IsFairBy status set_ready challenge
      → GoesThrough results
      → (by_status status challenge set_ready (authorize results) store).0 ≡ ok tt
  unfolding GoesThrough
  by_status-ok results valid challenge set_ready store fair rest = rest store
  by_status-ok results pending none set_ready store fair rest = absurd fair
  by_status-ok results pending (some (t, k)) set_ready store (some_token, no_slash, takes) rest =
      rw (takes (insert t k store) (insert-Gives store t k some_token no_slash))
        (rest (insert t k store))
  by_status-ok results other challenge set_ready store fair rest = absurd fair

  -- Whatever had been registered, all authorizations go through.
  pub authorize-ok :
      (results : List (Option Authorization))
      → All IsFairAuthorization results
      → (store : ChallengeStore) → (authorize results store).0 ≡ ok tt
  unfolding authorize GoesThrough
  authorize-ok [] fair store = refl
  authorize-ok (none ∷ results) (fair, rest) store = absurd fair
  authorize-ok (some a ∷ results) (fair, rest) store =
      by_status-ok results a.status a.challenge a.set_ready store fair (authorize-ok results rest)
