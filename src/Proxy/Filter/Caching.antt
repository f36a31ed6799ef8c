-- ===== src/Proxy/Filter/Caching.antt =====
-- crates/zaphyl/src/main.rs, `request_filter`: its part that serves from the cache, and asks the
-- upstream whether a stale entry is still good.
use zaphyl.Prelude.{ℕ, ◌+◌, ◌*◌, Bool, Option, none, some, [], if◌then◌else◌, unwrap_or, ok}
use zaphyl.Str.{Str, lit, before}
use zaphyl.Router.{Memory, Target, Route, Router, match_route, next_target}
use zaphyl.Cache.Key
use zaphyl.Cache.Policy.{request_cacheable}
use zaphyl.Cache.Store
use zaphyl.Cache.Store.{
  CachedResponse, ResponseCache, DiskTier, Lookup, miss, fresh, stale, etag, put,
}
use zaphyl.Upstream.{Client, Revalidated, not_modified, modified, failed, revalidate}
use zaphyl.Proxy.{header_text, has_header, stored_ttl}
use zaphyl.Proxy.Forwarding.{Http, RequestHeader, host_of, with_query}
use zaphyl.Proxy.Filter.{Filtered, serve_cache_hit}

-- What this part needs to know of a request.
pub record Asked : Type 0 where
  pub key : Str
  pub if_none_match : Option Str
  pub host : Str
  pub path_and_query : Str

-- What it changes: the key that the context remembers, the turns of the targets, and the cache.
pub record CachePhase (D : Type 0) : Type 0 where
  pub cache_key : Option Str
  pub memory : Memory
  pub cache : ResponseCache × D

-- The request as it is looked up, if it may be.
unfoldable pub lookup_request : Http → RequestHeader → Option Asked
lookup_request http request =
    let host = unwrap_or (host_of request.headers) [] in
    let path_and_query = with_query http request.path request.query in
    if request_cacheable request.method (header_text (lit "cache-control") request.headers)
      (has_header (lit "authorization") request.headers)
    then some (record {
      key = Key.key host path_and_query (header_text (lit "accept-encoding") request.headers);
      if_none_match = header_text (lit "if-none-match") request.headers;
      host = host;
      path_and_query = path_and_query;
    })
    else none

abbrev pub turn : Option Route → Memory → Option Target × Memory
turn none m = (none, m)
turn (some route) m = next_target route m

module _ (http : Http) (is_status : ℕ → Bool) (client : Client) {D : Type 0}
    (disk : Option (DiskTier D)) where
  -- The request goes on, and what comes back may be stored.
  abbrev pub go_on : Asked → CachePhase D → Filtered × CachePhase D
  go_on asked s = (ok none, record s { cache_key = some asked.key })

  -- The expiry of an entry that is revalidated, without the bound of `in_range`.
  abbrev pub store_ttl : Option ℕ → ℕ → Str → CachedResponse → CachePhase D → CachePhase D
  store_ttl none now key r s = s
  store_ttl (some ttl) now key r s = record s { cache = put disk key (now + 1000 * ttl, r) s.cache }

  -- The upstream has answered, by `now`.
  unfoldable pub revalidated :
      Asked → CachedResponse → ℕ → Revalidated → CachePhase D → Filtered × CachePhase D
  revalidated asked hit now not_modified s = (
    serve_cache_hit http is_status hit asked.if_none_match,
    store_ttl (some (unwrap_or (stored_ttl hit) 60)) now asked.key hit s,
  )
  revalidated asked hit now (modified status headers body) s =
      let r : CachedResponse = record { status = status; headers = headers; body = body } in
      (serve_cache_hit http is_status r none, store_ttl (stored_ttl r) now asked.key r s)
  revalidated asked hit now failed s = go_on asked s

  module _ (read_timeout : Option ℕ) (cache_max_body : ℕ) where
    abbrev pub revalidate_with :
        Asked
        → CachedResponse
        → ℕ
        → Option Str
        → Option Target
        → CachePhase D
        → Filtered × CachePhase D
    revalidate_with asked hit now none target s = go_on asked s
    revalidate_with asked hit now (some tag) none s = go_on asked s
    revalidate_with asked hit now (some tag) (some target) s =
        revalidated asked hit now
          (revalidate client target asked.path_and_query asked.host tag read_timeout cache_max_body)
          s

    unfoldable pub serve_stale :
        Router → Asked → CachedResponse → ℕ → CachePhase D → Filtered × CachePhase D
    unfolding revalidated
    serve_stale router asked hit now s =
        let (target, m) =
          turn (match_route router (some asked.host) (before b'?' asked.path_and_query)) s.memory in
        revalidate_with asked hit now (etag hit) target (record s { memory = m })

    unfoldable pub serve_found :
        Router → Asked → ℕ → Lookup → CachePhase D → Filtered × CachePhase D
    unfolding serve_stale
    serve_found router asked later (fresh hit) s =
        (serve_cache_hit http is_status hit asked.if_none_match, s)
    serve_found router asked later (stale hit) s = serve_stale router asked hit later s
    serve_found router asked later miss s = go_on asked s

    -- The cache is read at `now`, and an answer of the upstream comes `later`.
    unfoldable pub cache_phase_of :
        Router → Option Asked → ℕ → ℕ → CachePhase D → Filtered × CachePhase D
    unfolding serve_found
    cache_phase_of router none now later s = (ok none, s)
    cache_phase_of router (some asked) now later s =
        let (found, cache) = Store.lookup disk asked.key now s.cache in
        serve_found router asked later found (record s { cache = cache })

    unfoldable pub cache_phase :
        Router → RequestHeader → ℕ → ℕ → CachePhase D → Filtered × CachePhase D
    unfolding cache_phase_of
    cache_phase router request now later s =
        cache_phase_of router (lookup_request http request) now later s
