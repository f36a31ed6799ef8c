-- ===== src/Plugin.antt =====
-- crates/zaphyl-plugin/src/lib.rs and crates/zaphyl/src/plugins.rs: chains of plugins, and the flow of a
-- request through the chain of its route.
pub mod Host
pub mod Nesting
pub mod Echo
pub mod Transforms
pub use Host.{Request, Response, Action, Wasm, Plugin}
use zaphyl.Prelude.{
  ℕ, Bool, true, false, not, ◌&&◌, ◌*◌, Option, none, some, List, [], ◌∷◌, ◌++◌, map, any, is_empty,
  get_elem?, is_some_and, option_map, and_then, unwrap_or, if◌then◌else◌, Result, ok, err, try,
}
use mathlib.Core.List.{reverse}
use zaphyl.Str.{Str}
use Host.{load, call_request, call_response}
use zaphyl.Router.{Target}
use zaphyl.Config.Types.{PluginsConfig, RouteConfig, Config}
use zaphyl.Upstream.{Client, Fetched, fetch}

pub data ChainOutcome : Type 0 where
  continue : Request → ChainOutcome
  respond : Response → ChainOutcome

module _ (wasm : Wasm) where
  abbrev pub PluginChain : Type 0
  PluginChain = List (Plugin wasm)

  -- The first plugin that responds ends the chain.
  pub handle_request : PluginChain → Request → Result Str ChainOutcome
  handle_request [] request = ok (ChainOutcome.continue request)
  handle_request (plugin ∷ plugins) request = try (call_request wasm plugin request) (λ action.
      elim action [
        | Action.continue modified ↦ handle_request plugins modified
        | Action.respond response ↦ ok (ChainOutcome.respond response)
      ])

  pub respond_through : PluginChain → Response → Result Str Response
  respond_through [] response = ok response
  respond_through (plugin ∷ plugins) response =
      try (call_response wasm plugin response) (respond_through plugins)

  -- The chain is walked backwards.
  pub handle_response : PluginChain → Response → Result Str Response
  unfolding respond_through
  handle_response plugins response = respond_through (reverse plugins) response

  pub record Plugins : Type 0 where
    pub chains : List PluginChain
    pub max_body : ℕ
    pub read_timeout : Option ℕ

  pub load_all : List Str → Result Str (List (Plugin wasm))
  unfolding load
  load_all [] = ok []
  load_all (path ∷ paths) =
      try (load wasm path) (λ plugin. try (load_all paths) (λ plugins. ok (plugin ∷ plugins)))

  abbrev pub global_of : Option PluginsConfig → List Str
  global_of none = []
  global_of (some plugins) = plugins.global

  -- The global plugins before those of each route.
  pub build_chains : List (Plugin wasm) → List RouteConfig → Result Str (List PluginChain)
  unfolding load_all
  build_chains global [] = ok []
  build_chains global (route ∷ routes) =
      try (load_all route.plugins)
        (λ own. try (build_chains global routes) (λ chains. ok ((global ++ own) ∷ chains)))

  abbrev pub max_body_of : Option PluginsConfig → ℕ
  max_body_of none = 1024 * 1024
  max_body_of (some plugins) = plugins.max_body_bytes

  unfoldable pub build : Config → Option ℕ → Result Str (Option Plugins)
  unfolding build_chains load_all
  build config read_timeout =
      if is_empty (global_of config.plugins)
        && not (any (λ r. not (is_empty r.plugins)) config.routes)
      then ok none
      else try (load_all (global_of config.plugins)) (λ global.
        try (build_chains global config.routes) (λ chains. ok (
          some (record {
            chains = chains;
            max_body = max_body_of config.plugins;
            read_timeout = read_timeout;
          }))))

  abbrev pub unless_empty : PluginChain → Option PluginChain
  unless_empty [] = none
  unless_empty (plugin ∷ plugins) = some (plugin ∷ plugins)

  pub chain : Plugins → ℕ → Option PluginChain
  chain plugins route_id = and_then (get_elem? plugins.chains route_id) unless_empty

  abbrev pub response_of : Fetched → Response
  response_of f = record { status = f.status; headers = f.headers; body = f.body }

  -- What the request phase left is fetched, and the answer goes back through the chain.
  pub forward : Client → Plugins → PluginChain → Str → Target → ChainOutcome → Result Str Response
  unfolding handle_response
  forward client plugins ps host target (respond response) = ok response
  forward client plugins ps host target (continue request) =
      try
        (fetch client target request.method request.path host request.headers request.body
          plugins.read_timeout plugins.max_body)
        (λ fetched. handle_response ps (response_of fetched))

  pub run : Client → Plugins → PluginChain → Request → Str → Target → Result Str Response
  unfolding handle_request forward
  run client plugins ps request host target =
      try (handle_request ps request) (forward client plugins ps host target)
