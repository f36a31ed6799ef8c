-- ===== src/Plugin/Nesting.antt =====
-- In which order the plugins of a chain act, and when the upstream is asked.
use zaphyl.Prelude.{
  subst, zero, suc, ok_inj, some_inj, try-eq-ok, ℕ, zero, suc, ◌≡◌, refl, ap, ◌∙◌, Option, some,
  List, [], ◌∷◌, ◌++◌, arith, Result, ok, err, try, get_elem?, Bool-cases, inl, inr, any, not,
  is_empty, ◌&&◌,
}
use mathlib.Core.List.{reverse, reverse-append}
use zaphyl.Str.{Str}
use zaphyl.Router.{Target}
use zaphyl.Config.Types.{RouteConfig, Config}
use zaphyl.Upstream.{Client}
use zaphyl.Plugin.Host.{call_request, call_response}
use zaphyl.Plugin.{
  Wasm, Plugin, PluginChain, Plugins, Request, Response, Action, ChainOutcome, handle_request,
  respond_through, handle_response, load_all, global_of, build_chains, build, chain, unless_empty,
  forward, run,
}

module _ (wasm : Wasm) where
  -- What the second part of a chain makes of the outcome of the first.
  abbrev pub then_request : PluginChain wasm → ChainOutcome → Result Str ChainOutcome
  then_request ps (ChainOutcome.continue request) = handle_request wasm ps request
  then_request ps (ChainOutcome.respond response) = ok (ChainOutcome.respond response)

  handle_request-append :
      (ps qs : PluginChain wasm) (request : Request)
      → handle_request wasm (ps ++ qs) request
        ≡ try (handle_request wasm ps request) (then_request qs)
  unfolding handle_request
  handle_request-append [] qs request = refl
  handle_request-append (p ∷ ps) qs request =
      request_step p ps qs (call_request wasm p request) (handle_request-append ps qs)
    where
      request_step :
          (p : Plugin wasm) (ps qs : PluginChain wasm) (r : Result Str Action)
          → ((request : Request)
              → handle_request wasm (ps ++ qs) request
                ≡ try (handle_request wasm ps request) (then_request qs))
          → try r (λ action. elim action [
            | Action.continue modified ↦ handle_request wasm (ps ++ qs) modified
            | Action.respond response ↦ ok (ChainOutcome.respond response)
          ])
            ≡ try
                (try r (λ action. elim action [
                  | Action.continue modified ↦ handle_request wasm ps modified
                  | Action.respond response ↦ ok (ChainOutcome.respond response)
                ]))
                (then_request qs)
      request_step p ps qs (err e) ih = refl
      request_step p ps qs (ok (Action.continue m)) ih = ih m
      request_step p ps qs (ok (Action.respond r)) ih = refl

  respond_through-append :
      (ps qs : PluginChain wasm) (response : Response)
      → respond_through wasm (ps ++ qs) response
        ≡ try (respond_through wasm ps response) (respond_through wasm qs)
  unfolding respond_through
  respond_through-append [] qs response = refl
  respond_through-append (p ∷ ps) qs response =
      response_step ps qs (call_response wasm p response) (respond_through-append ps qs)
    where
      response_step :
          (ps qs : PluginChain wasm) (r : Result Str Response)
          → ((response : Response)
              → respond_through wasm (ps ++ qs) response
                ≡ try (respond_through wasm ps response) (respond_through wasm qs))
          → try r (respond_through wasm (ps ++ qs))
            ≡ try (try r (respond_through wasm ps)) (respond_through wasm qs)
      response_step ps qs (err e) ih = refl
      response_step ps qs (ok x) ih = ih x

  -- Two chains one after the other nest: the request passes the first and then the second, unless the
  -- first responds or fails, and the response passes the second and then the first.
  pub chain-append :
      (ps qs : PluginChain wasm) (request : Request) (response : Response)
      → (handle_request wasm (ps ++ qs) request
          ≡ try (handle_request wasm ps request) (then_request qs))
        × (handle_response wasm (ps ++ qs) response
            ≡ try (handle_response wasm qs response) (handle_response wasm ps))
  unfolding handle_response
  chain-append ps qs request response = (
    handle_request-append ps qs request,
    ap (λ x. respond_through wasm x response) (reverse-append ps qs)
        ∙ respond_through-append (reverse qs) (reverse ps) response,
  )

  -- A request that a plugin answers itself never reaches the upstream, nor the plugins' response phase:
  -- the result is that answer, whatever the client would fetch.
  pub run-respond :
      (client : Client) (plugins : Plugins wasm) (ps : PluginChain wasm) (request : Request)
      (host : Str) (target : Target) (response : Response)
      → handle_request wasm ps request ≡ ok (ChainOutcome.respond response)
      → run wasm client plugins ps request host target ≡ ok response
  unfolding run forward
  run-respond client plugins ps request host target response e = rw e refl

  at_index :
      (global : List (Plugin wasm)) (r : RouteConfig) (routes : List RouteConfig)
      (own : List (Plugin wasm)) (rest : List (PluginChain wasm)) (i : ℕ) (route : RouteConfig)
      → load_all wasm r.plugins ≡ ok own
      → get_elem? (r ∷ routes) i ≡ some route
      → ((k : ℕ)
          → get_elem? routes k ≡ some route
          → (own : List (Plugin wasm)) × (load_all wasm route.plugins ≡ ok own)
            × (get_elem? rest k ≡ some (global ++ own)))
      → (own' : List (Plugin wasm)) × (load_all wasm route.plugins ≡ ok own')
        × (get_elem? ((global ++ own) ∷ rest) i ≡ some (global ++ own'))
  at_index global r routes own rest zero route loaded g ih =
      (own, subst (λ x. load_all wasm x.plugins ≡ ok own) (some_inj r route g) loaded, refl)
  at_index global r routes own rest (suc i) route loaded g ih = ih i g

  -- The chains stand in the order of the routes.
  build_chains-get :
      (global : List (Plugin wasm)) (routes : List RouteConfig) (chains : List (PluginChain wasm))
      (i : ℕ) (route : RouteConfig)
      → build_chains wasm global routes ≡ ok chains
      → get_elem? routes i ≡ some route
      → (own : List (Plugin wasm)) × (load_all wasm route.plugins ≡ ok own)
        × (get_elem? chains i ≡ some (global ++ own))
  unfolding build_chains
  build_chains-get global [] chains i route h g = absurd (ground (arith, g))
  build_chains-get global (r ∷ routes) chains i route h g =
      let (own, loaded, h₁) =
        try-eq-ok (load_all wasm r.plugins)
          (λ own. try (build_chains wasm global routes) (λ rest. ok ((global ++ own) ∷ rest)))
          chains h in
      let (rest, others, h₂) =
        try-eq-ok (build_chains wasm global routes) (λ rest. ok ((global ++ own) ∷ rest)) chains
          h₁ in
      subst
        (λ cs.
          (own : List (Plugin wasm)) × (load_all wasm route.plugins ≡ ok own)
          × (get_elem? cs i ≡ some (global ++ own)))
        (ok_inj ((global ++ own) ∷ rest) chains h₂)
        (at_index global r routes own rest i route loaded g
          (λ k g'. build_chains-get global routes rest k route others g'))

  chain_of :
      (plugins : Plugins wasm) (i : ℕ) (ps : PluginChain wasm)
      → get_elem? plugins.chains i ≡ some ps
      → chain wasm plugins i ≡ unless_empty wasm ps
  unfolding chain
  chain_of plugins i ps e = rw e refl

  -- The chain of a route is the global plugins in their order, then its own in theirs; a route for
  -- which there are none has no chain.
  pub chain-build :
      (config : Config) (read_timeout : Option ℕ) (plugins : Plugins wasm) (i : ℕ)
      (route : RouteConfig)
      → build wasm config read_timeout ≡ ok (some plugins)
      → get_elem? config.routes i ≡ some route
      → (global : List (Plugin wasm)) × (own : List (Plugin wasm)) × (load_all wasm
            (global_of wasm config.plugins)
          ≡ ok global)
        × (load_all wasm route.plugins ≡ ok own)
        × (chain wasm plugins i ≡ unless_empty wasm (global ++ own))
  unfolding build
  chain-build config read_timeout plugins i route h g =
      elim (Bool-cases (
        is_empty (global_of wasm config.plugins)
        && not (any (λ r. not (is_empty r.plugins)) config.routes))) [
          | inl nothing ↦ absurd (ground (arith, rw nothing at h))
          | inr something ↦
              let (global, loaded, h₁) = try-eq-ok _ _ (some plugins) (rw something at h) in
              let (chains, built, h₂) = try-eq-ok _ _ (some plugins) h₁ in
              let same = some_inj _ _ (ok_inj _ _ h₂) in
              let (own, own_loaded, e) =
                build_chains-get global config.routes chains i route built g in
              (global, own, loaded, own_loaded, chain_of plugins i (global ++ own) (rw (← same) e))
        ]
