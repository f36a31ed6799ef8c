-- ===== src/Upstream.antt =====
-- crates/zaphyl/src/upstream.rs: the conditional fetch that revalidates a stale entry, and the fetch
-- for plugins. The HTTP client, and whether a request can be built, are arguments.
pub mod Kept
use zaphyl.Prelude.{
  ℕ, Bool, true, false, not, Option, none, some, List, [], ◌∷◌, ◌++◌, ltb, ◌==◌, if◌then◌else◌,
  length, any, Result, ok, err, try,
}
use zaphyl.Str.{Str, lit, str_eq, to_ascii_lowercase, eq_ignore_ascii_case}
use zaphyl.Router.{Target}

-- A header as the crate `http` keeps it, with its value where it is text.
abbrev pub Header : Type 0
Header = Str × Option Str

pub record FetchRequest : Type 0 where
  pub method : Str
  pub uri : Str
  pub headers : List (Str × Str)
  pub body : List ℕ

-- An answer's body may break off.
pub data Answer : Type 0 where
  fails : Answer
  times_out : Answer
  answers : ℕ → List Header → Option (List ℕ) → Answer

pub record Client : Type 0 where
  pub builds : FetchRequest → Bool
  -- The limit on the time, where there is one, and the request.
  pub send : Option ℕ → FetchRequest → Answer

unfoldable pub is_skipped_header : Str → Bool
is_skipped_header name = any (str_eq (to_ascii_lowercase name)) (
    lit "connection"
    ∷ lit "keep-alive"
    ∷ lit "proxy-connection"
    ∷ lit "transfer-encoding"
    ∷ lit "upgrade"
    ∷ lit "content-length"
    ∷ [])

-- The headers that are kept, where their values are text.
unfoldable pub kept : List Header → List (Str × Str)
unfolding is_skipped_header
kept [] = []
kept ((name, none) ∷ headers) = kept headers
kept ((name, some value) ∷ headers) =
    let rest = kept headers in if is_skipped_header name then rest else (name, value) ∷ rest

abbrev pub uri_of : Target → Str → Str
uri_of target path_and_query =
    (if target.tls then lit "https" else lit "http")
    ++ (lit "://" ++ (target.address ++ path_and_query))

pub data Revalidated : Type 0 where
  not_modified : Revalidated
  modified : ℕ → List (Str × Str) → List ℕ → Revalidated
  failed : Revalidated

-- A `200` with a body that is whole and not too large.
abbrev pub modified_if : ℕ → List Header → Option (List ℕ) → Revalidated
modified_if max headers none = failed
modified_if max headers (some body) =
    if ltb max (length body) then failed else modified 200 (kept headers) body

unfoldable pub classify : ℕ → Answer → Revalidated
unfolding kept
classify max fails = failed
classify max times_out = failed
classify max (answers status headers body) =
    if status == 304
    then not_modified
    else if status == 200
    then modified_if max headers body
    else failed

abbrev pub conditional_get : Target → Str → Str → Str → FetchRequest
conditional_get target path_and_query host tag = record {
  method = lit "GET";
  uri = uri_of target path_and_query;
  headers = (lit "host", host) ∷ (lit "if-none-match", tag) ∷ [];
  body = [];
}

unfoldable pub revalidate : Client → Target → Str → Str → Str → Option ℕ → ℕ → Revalidated
unfolding classify
revalidate client target path_and_query host tag timeout max =
    let request = conditional_get target path_and_query host tag in
    if client.builds request then classify max (client.send timeout request) else failed

-- The headers of the request, but for `host`.
unfoldable pub without_host : List (Str × Str) → List (Str × Str)
without_host [] = []
without_host (h ∷ headers) =
    let rest = without_host headers in
    if eq_ignore_ascii_case h.0 (lit "host") then rest else h ∷ rest

pub record Fetched : Type 0 where
  pub status : ℕ
  pub headers : List (Str × Str)
  pub body : List ℕ

abbrev pub bounded_body : ℕ → ℕ → List Header → Option (List ℕ) → Result Str Fetched
bounded_body max status headers none = err (lit "body")
bounded_body max status headers (some body) =
    if ltb max (length body)
    then err (lit "upstream response too large for a plugin route")
    else ok (record { status = status; headers = kept headers; body = body })

abbrev pub received : ℕ → Answer → Result Str Fetched
received max fails = err (lit "send")
received max times_out = err (lit "timeout")
received max (answers status headers body) = bounded_body max status headers body

abbrev pub buffered_request : Target → Str → Str → Str → List (Str × Str) → List ℕ → FetchRequest
buffered_request target method path_and_query host headers body = record {
  method = method;
  uri = uri_of target path_and_query;
  headers = (lit "host", host) ∷ without_host headers;
  body = body;
}

unfoldable pub fetch :
    Client
    → Target
    → Str
    → Str
    → Str
    → List (Str × Str)
    → List ℕ
    → Option ℕ
    → ℕ
    → Result Str Fetched
unfolding without_host kept
fetch client target method path_and_query host headers body timeout max =
    let request = buffered_request target method path_and_query host headers body in
    if client.builds request
    then received max (client.send timeout request)
    else err (lit "request")
