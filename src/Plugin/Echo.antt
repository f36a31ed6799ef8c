-- ===== src/Plugin/Echo.antt =====
-- That a plugin that changes nothing loses nothing on the way through its interface.
use zaphyl.Prelude.{◌≡◌, refl, ◌∙◌, [], ◌∷◌, All, ok}
use zaphyl.Plugin.Host.{
  Wasm, Plugin, Request, Response, HttpRequest, HttpResponse, RequestAction, new_store,
  call_request, call_response, to_wit_request, from_wit_action, from_wit_request, to_wit_response,
  from_wit_response,
}
use zaphyl.Plugin.{
  Action, PluginChain, ChainOutcome, handle_request, handle_response, respond_through,
}
use zaphyl.Plugin.Nesting.{chain-append}

module _ (wasm : Wasm) where
  -- In a fresh store the plugin gives back what it is given.
  abbrev pub Echoes : Plugin wasm → Type 0
  Echoes plugin =
      (i : wasm.Instance) × (wasm.instantiate new_store plugin.component ≡ ok i)
      × ((r : HttpRequest) → wasm.call_handle_request i r ≡ ok (RequestAction.continue r))
      × ((r : HttpResponse) → wasm.call_handle_response i r ≡ ok r)

  call_request-echo :
      (p : Plugin wasm) (r : Request) → Echoes p → call_request wasm p r ≡ ok (Action.continue r)
  unfolding call_request from_wit_action from_wit_request to_wit_request
  call_request-echo p r (i, made, asks, answers) = rw (made, asks (to_wit_request r)) refl

  call_response-echo : (p : Plugin wasm) (r : Response) → Echoes p → call_response wasm p r ≡ ok r
  unfolding call_response from_wit_response to_wit_response
  call_response-echo p r (i, made, asks, answers) = rw (made, answers (to_wit_response r)) refl

  alone : (p : Plugin wasm) (r : Response) → Echoes p → handle_response wasm (p ∷ []) r ≡ ok r
  unfolding handle_response respond_through
  alone p r echoes = rw (call_response-echo p r echoes) refl

  -- Through a chain of plugins that all give back what they are given, a request goes on as it came,
  -- with its body and the client's address, and a response comes back as it is.
  pub chain-echo :
      (ps : PluginChain wasm) (request : Request) (response : Response)
      → All Echoes ps
      → (handle_request wasm ps request ≡ ok (ChainOutcome.continue request))
        × (handle_response wasm ps response ≡ ok response)
  unfolding handle_request handle_response respond_through
  chain-echo [] request response echo = (refl, refl)
  chain-echo (p ∷ ps) request response (echoes, rest) =
      let (on, back) = chain-echo ps request response rest in
      (
        rw (call_request-echo p request echoes) on,
        (chain-append wasm (p ∷ []) ps request response).1 ∙ rw back (alone p response echoes),
      )
