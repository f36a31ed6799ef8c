-- ===== src/Plugin/Host.antt =====
-- crates/zaphyl-plugin/src/lib.rs, `PluginHost` and `Plugin`: the calls of a plugin, with the conversions
-- to and from the types of its interface (crates/zaphyl-plugin/wit/world.wit), each in a fresh store.
-- Wasmtime compiles, instantiates and runs the components: what a call gives is told by the component,
-- the store it runs in and what it is given.
use zaphyl.Prelude.{ℕ, ◌*◌, List, Result, ok, try}
use zaphyl.Str.{Str}

pub record Request : Type 0 where
  pub method : Str
  pub path : Str
  pub headers : List (Str × Str)
  pub body : List ℕ
  pub client_ip : Str

pub record Response : Type 0 where
  pub status : ℕ
  pub headers : List (Str × Str)
  pub body : List ℕ

pub data Action : Type 0 where
  continue : Request → Action
  respond : Response → Action

-- The interface of a plugin.
pub record HttpRequest : Type 0 where
  pub method : Str
  pub path : Str
  pub headers : List (Str × Str)
  pub body : List ℕ
  pub client_ip : Str

pub record HttpResponse : Type 0 where
  pub status : ℕ
  pub headers : List (Str × Str)
  pub body : List ℕ

pub data RequestAction : Type 0 where
  continue : HttpRequest → RequestAction
  respond : HttpResponse → RequestAction

unfoldable pub to_wit_request : Request → HttpRequest
to_wit_request request = record {
  method = request.method;
  path = request.path;
  headers = request.headers;
  body = request.body;
  client_ip = request.client_ip;
}

unfoldable pub from_wit_request : HttpRequest → Request
from_wit_request request = record {
  method = request.method;
  path = request.path;
  headers = request.headers;
  body = request.body;
  client_ip = request.client_ip;
}

unfoldable pub to_wit_response : Response → HttpResponse
to_wit_response response = record {
  status = response.status;
  headers = response.headers;
  body = response.body;
}

unfoldable pub from_wit_response : HttpResponse → Response
from_wit_response response = record {
  status = response.status;
  headers = response.headers;
  body = response.body;
}

unfoldable pub from_wit_action : RequestAction → Action
unfolding from_wit_request from_wit_response
from_wit_action (RequestAction.continue request) = Action.continue (from_wit_request request)
from_wit_action (RequestAction.respond response) = Action.respond (from_wit_response response)

abbrev pub execution_deadline_ticks : ℕ
execution_deadline_ticks = 100

abbrev pub max_memory_bytes : ℕ
max_memory_bytes = 64 * 1024 * 1024

-- What a store allows, counted from its making on.
pub record Store : Type 0 where
  pub epoch_deadline : ℕ
  pub memory_size : ℕ

unfoldable pub new_store : Store
new_store = record { epoch_deadline = execution_deadline_ticks; memory_size = max_memory_bytes }

pub record Wasm : Type 1 where
  pub Component : Type 0
  pub Instance : Type 0
  pub from_file : Str → Result Str Component
  pub instantiate : Store → Component → Result Str Instance
  pub call_handle_request : Instance → HttpRequest → Result Str RequestAction
  pub call_handle_response : Instance → HttpResponse → Result Str HttpResponse

module _ (wasm : Wasm) where
  pub record Plugin : Type 0 where
    pub name : Str
    pub component : wasm.Component

  unfoldable pub load : Str → Result Str Plugin
  load path =
      try (wasm.from_file path) (λ component. ok (record { name = path; component = component }))

  unfoldable pub call_request : Plugin → Request → Result Str Action
  unfolding from_wit_action to_wit_request new_store
  call_request plugin request = try (wasm.instantiate new_store plugin.component) (λ bindings.
      try (wasm.call_handle_request bindings (to_wit_request request))
        (λ action. ok (from_wit_action action)))

  unfoldable pub call_response : Plugin → Response → Result Str Response
  unfolding from_wit_response to_wit_response new_store
  call_response plugin response = try (wasm.instantiate new_store plugin.component) (λ bindings.
      try (wasm.call_handle_response bindings (to_wit_response response))
        (λ result. ok (from_wit_response result)))
