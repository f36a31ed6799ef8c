-- ===== src/Http3/Cached.antt =====
-- crates/zaphyl/src/http3.rs, `proxy_request`: its part that reads the cache, and what it stores at the
-- end.
use zaphyl.Prelude.{
  ℕ, ◌+◌, ◌*◌, Bool, true, false, Option, none, some, List, [], ◌∷◌, unwrap_or, if◌then◌else◌,
}
use zaphyl.Str.{Str, lit}
use zaphyl.Router.{Memory, Target, Route}
use zaphyl.Cache.Policy.{response_ttl}
use zaphyl.Cache.Store
use zaphyl.Cache.Store.{
  CachedResponse, ResponseCache, DiskTier, Lookup, miss, fresh, stale, etag, in_range, put,
}
use zaphyl.Upstream.{Client, Revalidated, not_modified, modified, failed, revalidate}
use zaphyl.Proxy.{header_text, has_header, ResponseHeader, stored_ttl}
use zaphyl.Proxy.Storing.{storable}
use zaphyl.Proxy.Filter.Caching.{Asked, turn}
use zaphyl.Http3.{accumulate_cache_body}

-- What is served, or the key under which an answer may be stored; the turns of the targets; the cache.
abbrev pub Looked : Type 0 → Type 0
Looked D = (Option CachedResponse × Option Str) × (Memory × (ResponseCache × D))

-- The buffer after the frames of the upstream's body.
unfoldable pub accumulate_all : Bool → ℕ → List (List ℕ) → List ℕ × Bool → List ℕ × Bool
accumulate_all active max [] state = state
accumulate_all active max (chunk ∷ chunks) (buf, overflow) =
    accumulate_all active max chunks (accumulate_cache_body active buf overflow chunk max)

-- The lifetime of the upstream's response, if it may be stored.
abbrev pub ttl_of : ResponseHeader → Option ℕ
ttl_of r =
    response_ttl r.status (header_text (lit "cache-control") r.headers)
      (has_header (lit "set-cookie") r.headers) (header_text (lit "vary") r.headers)

module _ {D : Type 0} (disk : Option (DiskTier D)) where
  -- The expiry of an entry that is revalidated, without the bound of `in_range`.
  abbrev pub store_ttl : Option ℕ → ℕ → Str → CachedResponse → ResponseCache × D → ResponseCache × D
  store_ttl none now key r cache = cache
  store_ttl (some ttl) now key r cache = put disk key (now + 1000 * ttl, r) cache

  unfoldable pub after_answer :
      Str → CachedResponse → ℕ → Memory → ResponseCache × D → Revalidated → Looked D
  after_answer key hit now m cache not_modified =
      ((some hit, none), (m, store_ttl (some (unwrap_or (stored_ttl hit) 60)) now key hit cache))
  after_answer key hit now m cache (modified status headers body) =
      let r : CachedResponse = record { status = status; headers = headers; body = body } in
      ((some r, none), (m, store_ttl (stored_ttl r) now key r cache))
  after_answer key hit now m cache failed = ((none, some key), (m, cache))

  module _ (client : Option Client) (reval_timeout : Option ℕ) (max_body : ℕ) where
    abbrev pub ask_back :
        Asked
        → CachedResponse
        → ℕ
        → Option Str
        → Option Client
        → ResponseCache × D
        → Option Target × Memory
        → Looked D
    ask_back asked hit now (some tag) (some c) cache (some target, m) =
        after_answer asked.key hit now m cache
          (revalidate c target asked.path_and_query asked.host tag reval_timeout max_body)
    ask_back asked hit now (some tag) (some c) cache (none, m) =
        ((none, some asked.key), (m, cache))
    ask_back asked hit now (some tag) none cache (target, m) = ((none, some asked.key), (m, cache))
    ask_back asked hit now none c cache (target, m) = ((none, some asked.key), (m, cache))

    unfoldable pub look_found :
        Option Route → Asked → ℕ → Memory → Lookup × (ResponseCache × D) → Looked D
    unfolding after_answer
    look_found route asked now m (fresh hit, cache) = ((some hit, none), (m, cache))
    look_found route asked now m (stale hit, cache) =
        ask_back asked hit now (etag hit) client cache (turn route m)
    look_found route asked now m (miss, cache) = ((none, some asked.key), (m, cache))

    unfoldable pub look_up : Option Route → Option Asked → ℕ → Memory → ResponseCache × D → Looked D
    unfolding look_found
    look_up route none now m cache = ((none, none), (m, cache))
    look_up route (some asked) now m cache =
        look_found route asked now m (Store.lookup disk asked.key now cache)

  -- Where the expiry is no time, its sum panics: nothing is stored, and the stream has been sent.
  abbrev pub store_unless :
      Bool → Str → ℕ → ℕ → CachedResponse → ResponseCache × D → ResponseCache × D
  store_unless true key ttl now r cache = cache
  store_unless false key ttl now r cache =
      if in_range now ttl then put disk key (now + 1000 * ttl, r) cache else cache

  abbrev pub store_for :
      Option Str
      → Option ℕ
      → ℕ
      → ℕ
      → ResponseHeader
      → List (List ℕ)
      → ResponseCache × D
      → ResponseCache × D
  store_for none ttl max now r chunks cache = cache
  store_for (some key) none max now r chunks cache = cache
  store_for (some key) (some ttl) max now r chunks cache =
      let (buf, overflow) = accumulate_all true max chunks ([], false) in
      store_unless overflow key ttl now
        (record { status = r.status; headers = storable r.headers; body = buf }) cache

  -- The whole answer of the upstream has been relayed, by `now`.
  unfoldable pub store_response :
      Option Str → ℕ → ℕ → ResponseHeader → List (List ℕ) → ResponseCache × D → ResponseCache × D
  unfolding accumulate_all
  store_response cache_key max now r chunks cache =
      store_for cache_key (ttl_of r) max now r chunks cache
