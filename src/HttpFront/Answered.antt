-- ===== src/HttpFront/Answered.antt =====
-- That challenges are answered in front of the redirect, and only while they are pending.
use zaphyl.Prelude.{◌≡◌, refl, false, none, some, [], ◌∷◌, ◌++◌, is_empty}
use zaphyl.Str.{Str, lit, contains}
use zaphyl.Str.Laws.{str_eq_iff}
use zaphyl.Challenge.{ChallengeStore, well_known_prefix, insert, remove, response_for}
use zaphyl.Challenge.Serving.{response_for-insert, response_for-remove}
use zaphyl.Proxy.Forwarding.{Http, RequestHeader}
use zaphyl.HttpFront.{NonChallenge, otherwise, respond}

-- While a challenge is pending, whose token is not empty and has no slash, a request for its path gets
-- its key authorization as plain text, whatever the front does with other requests. As soon as it is
-- removed, the same request is treated like any other.
pub respond-pending :
    (http : Http) (request : RequestHeader) (store : ChallengeStore) (behavior : NonChallenge)
    (token key_authorization : Str)
    → request.path ≡ well_known_prefix ++ token
    → is_empty token ≡ false
    → contains b'/' token ≡ false
    → (respond http request (insert token key_authorization store) behavior ≡ record {
      status = 200;
      headers = (lit "content-type", lit "text/plain") ∷ [];
      body = key_authorization;
    })
      × (respond http request (remove token (insert token key_authorization store)) behavior
          ≡ otherwise http request behavior)
unfolding respond
respond-pending http request store behavior token key_authorization path some_token no_slash =
    let same = (str_eq_iff token token).1 refl in
    let found : response_for (well_known_prefix ++ token) (insert token key_authorization store)
        ≡ some key_authorization =
      rw (response_for-insert token key_authorization token store)
        (rw (same, some_token, no_slash) refl) in
    let gone : response_for (well_known_prefix ++ token)
          (remove token (insert token key_authorization store))
        ≡ none =
      rw (response_for-remove token token (insert token key_authorization store)) (rw same refl) in
    rw path (rw (found, gone) (refl, refl))
