-- ===== src/Proxy/Filter/Plugins.antt =====
-- crates/zaphyl/src/main.rs, `try_run_plugins`: a request on a route with plugins is read whole, run
-- through the chain and the upstream, and answered.
use zaphyl.Prelude.{
  ℕ, ◌+◌, Bool, Option, none, some, List, [], ◌∷◌, ◌++◌, length, ltb, if◌then◌else◌, is_some_and,
  unwrap_or, Result, ok, err, try,
}
use zaphyl.Str.{Str, lit}
use zaphyl.Config.Validate.{show_uint}
use zaphyl.Router.{Memory, Target, Route, Router, match_route, next_target}
use zaphyl.Plugin
use zaphyl.Upstream.{Client}
use zaphyl.Proxy.{HeaderMap, header_text}
use zaphyl.Proxy.Guards.{content_length}
use zaphyl.Proxy.Forwarding.{
  Http, RequestHeader, host_of, with_query, insert_header, insert_headers, append_header,
}
use zaphyl.Proxy.Filter.{respond_error, response, Filtered, build}

-- The headers whose values are text.
unfoldable pub text_headers : HeaderMap → List (Str × Str)
text_headers [] = []
text_headers ((name, none) ∷ headers) = text_headers headers
text_headers ((name, some value) ∷ headers) = (name, value) ∷ text_headers headers

-- The chunks of a request's body, and the error that it breaks off with, if it does.
pub record Upload : Type 0 where
  pub chunks : List (List ℕ)
  pub breaks : Option Str

-- The body, or nothing where it is larger than the cap; what comes behind is not read.
unfoldable pub read_body : ℕ → List ℕ → List (List ℕ) → Option Str → Result Str (Option (List ℕ))
read_body max body [] none = ok (some body)
read_body max body [] (some e) = err e
read_body max body (chunk ∷ chunks) breaks =
    let rest = read_body max (body ++ chunk) chunks breaks in
    if ltb max (length body + length chunk) then ok none else rest

module _ (http : Http) (is_status : ℕ → Bool) (wasm : Plugin.Wasm) where
  unfoldable pub append_headers : List (Str × Str) → HeaderMap → HeaderMap
  append_headers [] headers = headers
  append_headers ((name, value) ∷ pairs) headers =
      append_headers pairs (append_header http name value headers)

  -- The request as plugins see it, without its body and the client's address.
  abbrev pub plugin_request : RequestHeader → Route → Plugin.Request
  plugin_request request route = record {
    method = request.method;
    path = with_query http request.path request.query;
    headers = text_headers request.headers ++ route.request_headers;
    body = [];
    client_ip = [];
  }

  abbrev pub reply_of : List (Str × Str) → Plugin.Response → Filtered
  reply_of resp_headers r =
      try (build http is_status (lit "plugin response header") r.status) (λ header. ok (
        some (
          response
            (header (
              insert_header http (lit "content-length") (show_uint (length r.body))
                (insert_headers http resp_headers (append_headers r.headers []))))
            r.body)))

  -- An error of the chain is a bad gateway.
  abbrev pub replied : List (Str × Str) → Result Str Plugin.Response → Filtered
  replied resp_headers (err e) = ok (some (respond_error 502))
  replied resp_headers (ok r) = reply_of resp_headers r

  module _ (client : Client) (plugins : Plugin.Plugins wasm) where
    abbrev pub run_body :
        Plugin.PluginChain wasm → Target → Route → RequestHeader → Str → Option (List ℕ) → Filtered
    run_body chain target route request client_ip none = ok (some (respond_error 413))
    run_body chain target route request client_ip (some body) = replied route.response_headers (
        Plugin.run wasm client plugins chain
          (record (plugin_request request route) { body = body; client_ip = client_ip })
          (unwrap_or (header_text (lit "host") request.headers) []) target)

    -- A declared length above the cap is left to the proxy.
    abbrev pub run_chain :
        Plugin.PluginChain wasm → Target → Route → RequestHeader → Str → Upload → Filtered
    run_chain chain target route request client_ip upload =
        if is_some_and (content_length request.headers) (λ len. ltb plugins.max_body len)
        then ok none
        else try (read_body plugins.max_body [] upload.chunks upload.breaks)
            (run_body chain target route request client_ip)

    abbrev pub with_target :
        Plugin.PluginChain wasm
        → Route
        → RequestHeader
        → Str
        → Upload
        → Option Target × Memory
        → Filtered × Memory
    with_target chain route request client_ip upload (none, m) = (ok none, m)
    with_target chain route request client_ip upload (some target, m) =
        (run_chain chain target route request client_ip upload, m)

    abbrev pub with_chain :
        Route
        → RequestHeader
        → Str
        → Upload
        → Memory
        → Option (Plugin.PluginChain wasm)
        → Filtered × Memory
    with_chain route request client_ip upload m none = (ok none, m)
    with_chain route request client_ip upload m (some chain) =
        with_target chain route request client_ip upload (next_target route m)

    abbrev pub with_route : RequestHeader → Str → Upload → Memory → Option Route → Filtered × Memory
    with_route request client_ip upload m none = (ok none, m)
    with_route request client_ip upload m (some route) =
        with_chain route request client_ip upload m (Plugin.chain wasm plugins route.id)

  unfoldable pub try_run_plugins :
      Client
      → Option (Plugin.Plugins wasm)
      → Router
      → RequestHeader
      → Str
      → Upload
      → Memory
      → Filtered × Memory
  unfolding read_body text_headers append_headers
  try_run_plugins client none router request client_ip upload m = (ok none, m)
  try_run_plugins client (some plugins) router request client_ip upload m =
      with_route client plugins request client_ip upload m
        (match_route router (host_of request.headers) request.path)
