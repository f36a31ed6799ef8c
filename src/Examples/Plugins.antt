-- ===== src/Examples/Plugins.antt =====
-- Chains of plugins that mark what passes or refuse it, an upstream that answers, and a pending
-- challenge.
use zaphyl.Prelude.{refl, ℕ, ◌≡◌, true, false, none, some, [], ◌∷◌, ◌++◌, ok, ◌==◌, if◌then◌else◌}
use zaphyl.Str.{lit}
use zaphyl.Router.{Target}
use zaphyl.Plugin.Host.{RequestAction}
use zaphyl.Plugin.{Wasm, Request, Plugin, Plugins, run}
use zaphyl.Plugin.Transforms.{Change, on_response, run-changes}
use zaphyl.Upstream.{Client, answers, revalidate}
use zaphyl.Upstream.Kept.{IsSafe, revalidate-IsSafe}
use zaphyl.Challenge.{ChallengeStore, well_known_prefix}
use zaphyl.Proxy.Forwarding.{Http, RequestHeader}

-- A component is the mark that it leaves in the path and in the body.
abbrev pub marking : Wasm
marking = record {
  Component = ℕ;
  Instance = ℕ;
  from_file = λ path. ok 1;
  instantiate = λ store mark. ok mark;
  call_handle_request =
      λ mark r. ok (RequestAction.continue (record r { path = r.path ++ mark ∷ [] }));
  call_handle_response = λ mark r. ok (record r { body = r.body ++ mark ∷ [] });
}

abbrev plugin : ℕ → Plugin marking
plugin mark = record { name = lit "p"; component = mark }

abbrev asked : Request
asked = record {
  method = lit "GET";
  path = lit "/";
  headers = [];
  body = [];
  client_ip = lit "::1";
}

abbrev pub origin : Client
origin = record {
  builds = λ request. true;
  send =
      λ timeout request. answers 200 ((lit "connection", some (lit "close")) ∷ []) (some (1 ∷ []));
}

abbrev pub backend : Target
backend = record { address = lit "b:80"; tls = false; sni = []; h2 = false; healthy = 0 }

-- A component as before, but for mark 0, which refuses every request.
abbrev guarding : Wasm
guarding = record {
  Component = ℕ;
  Instance = ℕ;
  from_file = λ path. ok 1;
  instantiate = λ store mark. ok mark;
  call_handle_request = λ mark r.
      if mark == 0
      then ok (RequestAction.respond (record { status = 403; headers = []; body = [] }))
      else ok (RequestAction.continue (record r { path = r.path ++ mark ∷ [] }));
  call_handle_response = λ mark r. ok (record r { body = r.body ++ mark ∷ [] });
}

abbrev guard : ℕ → Plugin guarding
guard mark = record { name = lit "p"; component = mark }

abbrev marks : ℕ → Change
marks mark =
    (λ r. record r { path = r.path ++ mark ∷ [] }, λ r. record r { body = r.body ++ mark ∷ [] })

abbrev loaded : Plugins guarding
loaded = record { chains = []; max_body = 10; read_timeout = none }

run-changes_example :
    (run guarding origin loaded (guard 1 ∷ guard 2 ∷ []) asked (lit "h") backend
      ≡ ok (
          on_response
            (marks 1 ∷ marks 2 ∷ [])
            (record { status = 200; headers = []; body = 1 ∷ [] })))
    × (run guarding origin loaded (guard 1 ∷ guard 2 ∷ guard 0 ∷ []) asked (lit "h") backend
        ≡ ok (record { status = 403; headers = []; body = [] }))
unfolding zaphyl.Plugin.Transforms.Makes zaphyl.Plugin.Transforms.on_request
    zaphyl.Plugin.Host.call_request zaphyl.Plugin.Host.call_response
    zaphyl.Plugin.Host.from_wit_action zaphyl.Plugin.Host.from_wit_request
    zaphyl.Plugin.Host.to_wit_request zaphyl.Plugin.Host.from_wit_response
    zaphyl.Plugin.Host.to_wit_response zaphyl.Plugin.Host.new_store zaphyl.Upstream.fetch
    zaphyl.Str.str_eq zaphyl.Str.to_ascii_lowercase
run-changes_example =
    run-changes guarding origin loaded (guard 1 ∷ guard 2 ∷ []) (marks 1 ∷ marks 2 ∷ []) asked
      (lit "h") backend (record { status = 200; headers = []; body = 1 ∷ [] }) (guard 0) []
      (record { status = 403; headers = []; body = [] })
      (λ r. refl, λ r. refl, (λ r. refl, λ r. refl, tt)) refl refl

revalidate-IsSafe_example :
    IsSafe 10 (revalidate origin backend (lit "/") (lit "h") (lit "t") none 10)
revalidate-IsSafe_example = revalidate-IsSafe origin backend (lit "/") (lit "h") (lit "t") none 10

abbrev pub http : Http
http = record {
  parse_header = λ name value. some (name, some value);
  parse_uri = λ text. some (text, none);
}

abbrev pub challenge : RequestHeader
challenge = record {
  method = lit "GET";
  path = well_known_prefix ++ lit "t";
  query = none;
  headers = (lit "host", some (lit "h")) ∷ [];
}

abbrev pub no_challenges : ChallengeStore
no_challenges = record { tokens = [] }
