-- ===== src/Plugin/Transforms.antt =====
-- Chains of plugins that each change the request on its way and the response on its way back.
use zaphyl.Prelude.{◌≡◌, refl, ◌∙◌, List, [], ◌∷◌, ◌++◌, ok}
use zaphyl.Str.{Str}
use zaphyl.Router.{Target}
use zaphyl.Upstream.{Client, Fetched, fetch}
use zaphyl.Plugin.Host.{call_request, call_response}
use zaphyl.Plugin.{
  Wasm, Plugin, PluginChain, Plugins, Request, Response, Action, ChainOutcome, handle_request,
  respond_through, handle_response, response_of, forward, run,
}
use zaphyl.Plugin.Nesting.{chain-append, run-respond}

-- What a plugin makes of a request and of a response.
abbrev pub Change : Type 0
Change = (Request → Request) × (Response → Response)

-- The first plugin changes the request first.
unfoldable pub on_request : List Change → Request → Request
on_request [] request = request
on_request (change ∷ changes) request = on_request changes (change.0 request)

-- The first plugin changes the response last.
unfoldable pub on_response : List Change → Response → Response
on_response [] response = response
on_response (change ∷ changes) response = change.1 (on_response changes response)

module _ (wasm : Wasm) where
  -- Each plugin of the chain continues with its change, and never fails.
  unfoldable pub Makes : PluginChain wasm → List Change → Type 0
  Makes [] [] = Unit {0}
  Makes [] (change ∷ changes) = ⊥
  Makes (plugin ∷ plugins) [] = ⊥
  Makes (plugin ∷ plugins) (change ∷ changes) =
      ((request : Request)
        → call_request wasm plugin request ≡ ok (Action.continue (change.0 request)))
      × ((response : Response) → call_response wasm plugin response ≡ ok (change.1 response))
      × Makes plugins changes

  handle_request-changes :
      (ps qs : PluginChain wasm) (changes : List Change) (request : Request)
      → Makes ps changes
      → handle_request wasm (ps ++ qs) request ≡ handle_request wasm qs (on_request changes request)
  unfolding handle_request on_request Makes
  handle_request-changes [] qs [] request makes = refl
  handle_request-changes [] qs (c ∷ changes) request makes = absurd makes
  handle_request-changes (p ∷ ps) qs [] request makes = absurd makes
  handle_request-changes (p ∷ ps) qs (c ∷ changes) request (continues, changed, rest) =
      rw (continues request) (handle_request-changes ps qs changes (c.0 request) rest)

  handle_response-one :
      (p : Plugin wasm) (response changed : Response)
      → call_response wasm p response ≡ ok changed
      → handle_response wasm (p ∷ []) response ≡ ok changed
  unfolding handle_response respond_through
  handle_response-one p response changed h = rw h refl

  handle_response-none : (response : Response) → handle_response wasm [] response ≡ ok response
  unfolding handle_response respond_through
  handle_response-none response = refl

  handle_response-changes :
      (ps : PluginChain wasm) (changes : List Change) (request : Request) (response : Response)
      → Makes ps changes
      → handle_response wasm ps response ≡ ok (on_response changes response)
  unfolding on_response Makes
  handle_response-changes [] [] request response makes = handle_response-none response
  handle_response-changes [] (c ∷ changes) request response makes = absurd makes
  handle_response-changes (p ∷ ps) [] request response makes = absurd makes
  handle_response-changes (p ∷ ps) (c ∷ changes) request response (continues, changed, rest) =
      let (_, nested) = chain-append wasm (p ∷ []) ps request response in
      let inner = handle_response-changes ps changes request response rest in
      nested
      ∙ rw inner (
          handle_response-one p (on_response changes response) (c.1 (on_response changes response))
            (changed (on_response changes response)))

  handle_request-all :
      (ps : PluginChain wasm) (changes : List Change) (request : Request)
      → Makes ps changes
      → handle_request wasm ps request ≡ ok (ChainOutcome.continue (on_request changes request))
  unfolding handle_request on_request Makes
  handle_request-all [] [] request makes = refl
  handle_request-all [] (c ∷ changes) request makes = absurd makes
  handle_request-all (p ∷ ps) [] request makes = absurd makes
  handle_request-all (p ∷ ps) (c ∷ changes) request (continues, changed, rest) =
      rw (continues request) (handle_request-all ps changes (c.0 request) rest)

  handle_request-responds :
      (q : Plugin wasm) (qs : PluginChain wasm) (request : Request) (response : Response)
      → call_request wasm q request ≡ ok (Action.respond response)
      → handle_request wasm (q ∷ qs) request ≡ ok (ChainOutcome.respond response)
  unfolding handle_request
  handle_request-responds q qs request response h = rw h refl

  forward-changes :
      (client : Client) (plugins : Plugins wasm) (ps : PluginChain wasm) (changes : List Change)
      (host : Str) (target : Target) (sent : Request) (fetched : Fetched)
      → Makes ps changes
      → fetch client target sent.method sent.path host sent.headers sent.body plugins.read_timeout
          plugins.max_body
        ≡ ok fetched
      → forward wasm client plugins ps host target (ChainOutcome.continue sent)
        ≡ ok (on_response changes (response_of wasm fetched))
  unfolding forward
  forward-changes client plugins ps changes host target sent fetched makes h =
      rw h (handle_response-changes ps changes sent (response_of wasm fetched) makes)

  -- A request runs through a chain whose plugins each change what passes: the upstream is asked for what
  -- all the changes make of the request, the first plugin's first, each given what the one before has
  -- made; and if it answers, the client gets what the changes make of the response, the first plugin's
  -- last. If behind these plugins another one responds to what they have made of the request, its
  -- response is the result as it is, whatever plugins follow and whatever the upstream would answer.
  pub run-changes :
      (client : Client) (plugins : Plugins wasm) (ps : PluginChain wasm) (changes : List Change)
      (request : Request) (host : Str) (target : Target) (fetched : Fetched) (q : Plugin wasm)
      (qs : PluginChain wasm) (response : Response)
      → Makes ps changes
      → fetch client target
          (on_request changes request).method
          (on_request changes request).path
          host
          (on_request changes request).headers
          (on_request changes request).body
          plugins.read_timeout
          plugins.max_body
        ≡ ok fetched
      → call_request wasm q (on_request changes request) ≡ ok (Action.respond response)
      → (run wasm client plugins ps request host target
          ≡ ok (on_response changes (response_of wasm fetched)))
        × (run wasm client plugins (ps ++ q ∷ qs) request host target ≡ ok response)
  unfolding run
  run-changes client plugins ps changes request host target fetched q qs response makes answered
        responds =
      let passed : handle_request wasm ps request
          ≡ ok (ChainOutcome.continue (on_request changes request)) =
        handle_request-all ps changes request makes in
      (
        rw passed (
            forward-changes client plugins ps changes host target (on_request changes request)
              fetched makes answered),
        run-respond wasm client plugins (ps ++ q ∷ qs) request host target response (
            handle_request-changes ps (q ∷ qs) changes request makes
            ∙ handle_request-responds q qs (on_request changes request) response responds),
      )
