-- ===== src/Proxy/Storing.antt =====
-- crates/zaphyl/src/main.rs, `upstream_response_filter` and `upstream_response_body_filter`: which
-- responses of an upstream are stored, and as what.
pub mod Whole
use zaphyl.Prelude.{
  ℕ, ◌+◌, ◌*◌, Bool, true, false, not, ◌&&◌, Option, none, some, List, [], ◌∷◌, ◌++◌, ltb, length,
  if◌then◌else◌, is_some,
}
use zaphyl.Str.{Str, lit}
use zaphyl.Cache.Policy.{response_ttl}
use zaphyl.Cache.Store.{CachedResponse, ResponseCache, DiskTier, in_range, put}
use zaphyl.Proxy.{
  HeaderMap, header_text, has_header, ResponseHeader, RequestCtx, is_uncacheable_header,
}

-- The headers that may be stored and whose values are text.
unfoldable pub storable : HeaderMap → List (Str × Str)
storable [] = []
storable ((name, none) ∷ headers) = storable headers
storable ((name, some value) ∷ headers) =
    let rest = storable headers in if is_uncacheable_header name then rest else (name, value) ∷ rest

abbrev pub remember_ttl : Option ℕ → ResponseHeader → RequestCtx → RequestCtx
remember_ttl none response ctx = record ctx { cache_key = none }
remember_ttl (some ttl) response ctx = record ctx {
  cache_ttl = some ttl;
  cache_status = response.status;
  cache_headers = storable response.headers;
}

unfoldable pub upstream_response_filter : Bool → ResponseHeader → RequestCtx → RequestCtx
unfolding storable
upstream_response_filter has_cache response ctx =
    if has_cache && is_some ctx.cache_key
    then remember_ttl
        (response_ttl response.status (header_text (lit "cache-control") response.headers)
          (has_header (lit "set-cookie") response.headers)
          (header_text (lit "vary") response.headers))
        response ctx
    else ctx

-- One more chunk of the body, unless that makes it too large to store.
unfoldable pub keep_chunk : ℕ → Option (List ℕ) → RequestCtx → RequestCtx
keep_chunk max none ctx = ctx
keep_chunk max (some chunk) ctx =
    if ltb max (length ctx.cache_body + length chunk)
    then record ctx { cache_overflow = true; cache_body = [] }
    else record ctx { cache_body = ctx.cache_body ++ chunk }

abbrev pub response_of : RequestCtx → CachedResponse
response_of ctx = record {
  status = ctx.cache_status;
  headers = ctx.cache_headers;
  body = ctx.cache_body;
}

abbrev pub taken : RequestCtx → RequestCtx
taken ctx = record ctx { cache_key = none; cache_headers = []; cache_body = [] }

module _ {D : Type 0} (disk : Option (DiskTier D)) (cache_max_body : ℕ) where
  -- Where the expiry is no time, the sum panics when the key is taken: nothing is stored.
  abbrev pub store_under :
      Option Str → ℕ → ℕ → RequestCtx × (ResponseCache × D) → RequestCtx × (ResponseCache × D)
  store_under none now ttl state = state
  store_under (some key) now ttl (ctx, cache) =
      if in_range now ttl
      then (taken ctx, put disk key (now + 1000 * ttl, response_of ctx) cache)
      else (record ctx { cache_key = none }, cache)

  -- At the end of the stream, what was kept is stored, and the key is gone.
  unfoldable pub finish :
      Bool → ℕ → ℕ → RequestCtx × (ResponseCache × D) → RequestCtx × (ResponseCache × D)
  finish end_of_stream now ttl (ctx, cache) =
      if end_of_stream && not ctx.cache_overflow
      then store_under ctx.cache_key now ttl (ctx, cache)
      else (ctx, cache)

  abbrev pub while_fits :
      Option ℕ
      → Bool
      → Option (List ℕ)
      → Bool
      → ℕ
      → RequestCtx × (ResponseCache × D)
      → RequestCtx × (ResponseCache × D)
  while_fits none overflow body end_of_stream now state = state
  while_fits (some ttl) true body end_of_stream now state = state
  while_fits (some ttl) false body end_of_stream now (ctx, cache) =
      finish end_of_stream now ttl (keep_chunk cache_max_body body ctx, cache)

  unfoldable pub upstream_response_body_filter :
      Option (List ℕ)
      → Bool
      → ℕ
      → RequestCtx × (ResponseCache × D)
      → RequestCtx × (ResponseCache × D)
  unfolding keep_chunk finish
  upstream_response_body_filter body end_of_stream now (ctx, cache) =
      while_fits ctx.cache_ttl ctx.cache_overflow body end_of_stream now (ctx, cache)
