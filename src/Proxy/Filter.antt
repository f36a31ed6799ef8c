-- ===== src/Proxy/Filter.antt =====
-- crates/zaphyl/src/main.rs, `serve_cache_hit` and `try_serve_static`: the answers that
-- `request_filter` gives without the proxy. Which statuses can be sent is told by the crate `http`, the
-- media type of a file by the crate `mime_guess`. A reply counts as written.
pub mod Plugins
pub mod Caching
pub mod Phase
pub mod Served
pub mod Repeated
pub mod Direct
use zaphyl.Prelude.{
  ℕ, Bool, true, false, Option, none, some, List, [], ◌∷◌, length, if◌then◌else◌, unwrap_or, Result,
  ok, err, try,
}
use zaphyl.Str.{Str, lit}
use zaphyl.Config.Validate.{show_uint}
use zaphyl.Router.{Route, Router, match_route, rewrite_path}
use zaphyl.Cache.Policy.{if_none_match_satisfied}
use zaphyl.Cache.Store.{CachedResponse, etag}
use zaphyl.Static.{FileSystem, PathBuf, resolve}
use zaphyl.Proxy.{HeaderMap, ResponseHeader}
use zaphyl.Proxy.Forwarding.{Http, RequestHeader, host_of, insert_header, insert_headers}

-- An error page, or a header with a body.
pub data Reply : Type 0 where
  respond_error : ℕ → Reply
  response : ResponseHeader → List ℕ → Reply

-- What a step of the filter yields: an error, or the reply that ends the request, if there is one.
abbrev pub Filtered : Type 0
Filtered = Result Str (Option Reply)

module _ (http : Http) (is_status : ℕ → Bool) where
  -- `ResponseHeader::build`, with the message of its failure.
  abbrev pub build : Str → ℕ → Result Str (HeaderMap → ResponseHeader)
  build message status =
      if is_status status
      then ok (λ headers. record { status = status; headers = headers })
      else err message

  abbrev pub hit_headers : CachedResponse → HeaderMap
  hit_headers hit = insert_header http (lit "x-cache") (lit "HIT") (
      insert_header http (lit "content-length") (show_uint (length hit.body))
        (insert_headers http hit.headers []))

  -- The whole response that is stored.
  unfoldable pub serve_whole : CachedResponse → Filtered
  serve_whole hit =
      try (build (lit "cache header") hit.status)
        (λ header. ok (some (response (header (hit_headers hit)) hit.body)))

  abbrev pub serve_tag : Str → Filtered
  serve_tag tag = try (build (lit "cache header") 304) (λ header. ok (
      some (
        response
          (header (
            insert_header http (lit "x-cache") (lit "HIT")
              (insert_header http (lit "etag") tag [])))
          [])))

  abbrev pub serve_tagged : CachedResponse → Option Str → Option Str → Filtered
  serve_tagged hit (some inm) (some tag) =
      if if_none_match_satisfied inm tag then serve_tag tag else serve_whole hit
  serve_tagged hit (some inm) none = serve_whole hit
  serve_tagged hit none tag = serve_whole hit

  unfoldable pub serve_cache_hit : CachedResponse → Option Str → Filtered
  unfolding serve_whole
  serve_cache_hit hit if_none_match = serve_tagged hit if_none_match (etag hit)

  module _ (fs : FileSystem) (path_of : Str → PathBuf) (mime : PathBuf → Str) where
    abbrev pub serve_contents : PathBuf → Option (List ℕ) → Filtered
    serve_contents file none = ok (some (respond_error 404))
    serve_contents file (some contents) =
        try (build (lit "failed to build response header") 200) (λ header. ok (
          some (
            response
              (header (
                insert_header http (lit "content-length") (show_uint (length contents))
                  (insert_header http (lit "content-type") (mime file) [])))
              contents)))

    abbrev pub serve_file : Option PathBuf → Filtered
    serve_file none = ok (some (respond_error 404))
    serve_file (some file) = serve_contents file (fs.read file)

    abbrev pub serve_dir : Route → Str → Option Str → Filtered
    serve_dir route path none = ok none
    serve_dir route path (some dir) =
        serve_file (resolve fs (path_of dir) (unwrap_or (rewrite_path route path) path))

    abbrev pub serve_route : Str → Option Route → Filtered
    serve_route path none = ok none
    serve_route path (some route) = serve_dir route path route.static_dir

    unfoldable pub try_serve_static : Router → RequestHeader → Filtered
    try_serve_static router request =
        serve_route request.path (match_route router (host_of request.headers) request.path)
