-- ===== src/HttpFront.antt =====
-- crates/zaphyl/src/http_front.rs: the answers of the front for plain HTTP.
pub mod Answered
use zaphyl.Prelude.{
  ℕ, Bool, true, false, Option, none, some, List, [], ◌∷◌, ◌++◌, ◌==◌, if◌then◌else◌, unwrap_or,
}
use zaphyl.Str.{Str, lit}
use zaphyl.Config.Validate.{show_uint}
use zaphyl.Challenge.{ChallengeStore, response_for}
use zaphyl.Proxy.Forwarding.{Http, RequestHeader, host_of, with_query}

-- What to do with a request that is no challenge.
pub data NonChallenge : Type 0 where
  redirect_to_https : ℕ → NonChallenge
  not_found : NonChallenge

-- A status, the headers and the body.
pub record Response : Type 0 where
  pub status : ℕ
  pub headers : List (Str × Str)
  pub body : Str

unfoldable pub location : Http → RequestHeader → ℕ → Str
location http request https_port =
    let host = unwrap_or (host_of request.headers) [] in
    let path_and_query = with_query http request.path request.query in
    if https_port == 443
    then lit "https://" ++ (host ++ path_and_query)
    else lit "https://" ++ (host ++ (lit ":" ++ (show_uint https_port ++ path_and_query)))

abbrev pub otherwise : Http → RequestHeader → NonChallenge → Response
otherwise http request (redirect_to_https port) = record {
  status = 308;
  headers = (lit "location", location http request port) ∷ [];
  body = [];
}
otherwise http request not_found = record { status = 404; headers = []; body = [] }

abbrev pub answer : Http → RequestHeader → NonChallenge → Option Str → Response
answer http request behavior (some body) = record {
  status = 200;
  headers = (lit "content-type", lit "text/plain") ∷ [];
  body = body;
}
answer http request behavior none = otherwise http request behavior

unfoldable pub respond : Http → RequestHeader → ChallengeStore → NonChallenge → Response
unfolding location
respond http request store behavior = answer http request behavior (response_for request.path store)
