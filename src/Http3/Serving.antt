-- ===== src/Http3/Serving.antt =====
-- crates/zaphyl/src/http3.rs, `response_head`, and the parts of `proxy_request` that answer from a file
-- or from the cache.
use zaphyl.Prelude.{
  sym, ◌∙◌, sym, ◌∙◌, ℕ, ◌≡◌, inl, inr, refl, Bool, true, Option, none, some, List, [], ◌∷◌, ◌++◌,
  length, if◌then◌else◌, and_then, option_map, unwrap_or, Bool-cases,
}
use zaphyl.Str.{Str, lit}
use zaphyl.Config.Validate.{show_uint}
use zaphyl.Router.{Route, rewrite_path}
use zaphyl.Cache.Policy.{if_none_match_satisfied}
use zaphyl.Cache.Store.{CachedResponse, etag}
use zaphyl.Static.{FileSystem, PathBuf, resolve}
use zaphyl.Proxy.{HeaderMap, ResponseHeader}
use zaphyl.Proxy.Forwarding.{Http, append_header, insert_header}
use zaphyl.Proxy.Filter.{serve_cache_hit}
use zaphyl.Proxy.Filter.Served.{sent, satisfied, sent-serve_cache_hit}

-- A head without headers, and no body.
abbrev pub bare : ℕ → ResponseHeader × List ℕ
bare status = (record { status = status; headers = [] }, [])

abbrev pub file_head : Str → List ℕ → ResponseHeader
file_head mime body = record {
  status = 200;
  headers =
      (lit "content-type", some mime) ∷ (lit "content-length", some (show_uint (length body))) ∷ [];
}

module _ (http : Http) (is_status : ℕ → Bool) where
  unfoldable pub append_pairs : List (Str × Str) → HeaderMap → HeaderMap
  append_pairs [] headers = headers
  append_pairs ((name, value) ∷ pairs) headers =
      append_pairs pairs (append_header http name value headers)

  abbrev pub with_length : Option ℕ → HeaderMap → HeaderMap
  with_length none headers = headers
  with_length (some n) headers = insert_header http (lit "content-length") (show_uint n) headers

  -- A status that cannot be sent becomes 502.
  unfoldable pub response_head : ℕ → List (Str × Str) → Option ℕ → ResponseHeader
  unfolding append_pairs
  response_head status headers content_length = record {
    status = if is_status status then status else 502;
    headers = with_length content_length (append_pairs headers []);
  }

  abbrev pub serve_tag : Str → ResponseHeader × List ℕ
  serve_tag tag = (response_head 304 ((lit "etag", tag) ∷ (lit "x-cache", lit "HIT") ∷ []) none, [])

  abbrev pub serve_whole : CachedResponse → ResponseHeader × List ℕ
  serve_whole hit = (
    response_head hit.status (hit.headers ++ (lit "x-cache", lit "HIT") ∷ [])
        (some (length hit.body)),
    hit.body,
  )

  abbrev pub serve_tagged : CachedResponse → Option Str → Option Str → ResponseHeader × List ℕ
  serve_tagged hit (some inm) (some tag) =
      if if_none_match_satisfied inm tag then serve_tag tag else serve_whole hit
  serve_tagged hit (some inm) none = serve_whole hit
  serve_tagged hit none tag = serve_whole hit

  unfoldable pub serve_hit : CachedResponse → Option Str → ResponseHeader × List ℕ
  unfolding response_head
  serve_hit hit if_none_match = serve_tagged hit if_none_match (etag hit)

  -- Whatever status a plugin or a file of the cache gives, the one that is sent is valid.
  pub response_head-valid :
      (status : ℕ) (headers : List (Str × Str)) (content_length : Option ℕ)
      → is_status 502 ≡ true
      → is_status (response_head status headers content_length).status ≡ true
  unfolding response_head
  response_head-valid status headers content_length h = elim (Bool-cases (is_status status)) [
    | inl e ↦ rw e e
    | inr e ↦ rw e h
  ]

  -- The status and the body of an answer.
  abbrev pub shown : ResponseHeader × List ℕ → Option (ℕ × List ℕ)
  shown (head, body) = some (head.status, body)

  tagged-same :
      (stored : CachedResponse) (inm tag : Option Str)
      → is_status 304 ≡ true
      → is_status stored.status ≡ true
      → shown (serve_tagged stored inm tag)
        ≡ (if satisfied inm tag then some (304, []) else some (stored.status, stored.body))
  unfolding response_head
  tagged-same stored none tag valid valid' = rw valid' refl
  tagged-same stored (some inm) none valid valid' = rw valid' refl
  tagged-same stored (some inm) (some tag) valid valid' =
      elim (Bool-cases (if_none_match_satisfied inm tag)) [
        | inl e ↦ rw e (rw valid refl)
        | inr e ↦ rw e (rw valid' refl)
      ]

  -- A stored response whose status can be sent is answered over HTTP/3 with the same status and the
  -- same body as by the proxy, whatever the header If-None-Match says.
  pub serve_hit-same :
      (stored : CachedResponse) (inm : Option Str)
      → is_status 304 ≡ true
      → is_status stored.status ≡ true
      → shown (serve_hit stored inm) ≡ sent (serve_cache_hit http is_status stored inm)
  unfolding serve_hit
  serve_hit-same stored inm valid valid' =
      tagged-same stored inm (etag stored) valid valid'
      ∙ sym (sent-serve_cache_hit http is_status stored inm valid valid')

module _ (fs : FileSystem) (path_of : Str → PathBuf) (mime : PathBuf → Str) where
  abbrev pub file_reply : Option (PathBuf × List ℕ) → ResponseHeader × List ℕ
  file_reply none = bare 404
  file_reply (some (file, body)) = (file_head (mime file) body, body)

  unfoldable pub serve_dir : Route → Str → Str → ResponseHeader × List ℕ
  serve_dir route path dir = file_reply (
      and_then (resolve fs (path_of dir) (unwrap_or (rewrite_path route path) path))
        (λ file. option_map (λ body. (file, body)) (fs.read file)))
