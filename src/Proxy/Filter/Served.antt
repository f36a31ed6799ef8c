-- ===== src/Proxy/Filter/Served.antt =====
-- What is served from the cache, and what a revalidation leaves in it.
use zaphyl.Prelude.{
  Option-cases, if◌then◌else◌, ◌∙◌, ℕ, ◌+◌, ◌*◌, ◌<◌, ◌≡◌, ◌≢◌, ◌⊎◌, inl, inr, refl, Bool, true,
  false, Option, none, some, List, [], arith, unwrap_or, ok, err, Bool-cases,
}
use zaphyl.Str.{Str, before}
use zaphyl.Router.{Target, Router, match_route}
use zaphyl.Cache.Policy.{if_none_match_satisfied}
use zaphyl.Cache.Store
use zaphyl.Cache.Store.{
  CachedResponse, ResponseCache, DiskTier, Entry, Lookup, fresh, stale, miss, etag, put, evicted,
  insert_memory, from_disk, hit,
}
use zaphyl.Cache.Store.Served.{lookup-put_any, hit-live}
use zaphyl.Upstream.{Client, Revalidated, not_modified, modified, failed, revalidate}
use zaphyl.Proxy.{stored_ttl}
use zaphyl.Proxy.Forwarding.{Http}
use zaphyl.Proxy.Filter.{
  serve_tagged, respond_error, response, Filtered, serve_whole, serve_cache_hit, serve_tag,
}
use zaphyl.Proxy.Filter.Caching.{
  revalidate_with, Asked, CachePhase, turn, revalidated, serve_stale, serve_found, cache_phase_of,
}

-- The status and the body of a reply.
abbrev pub sent : Filtered → Option (ℕ × List ℕ)
sent (err e) = none
sent (ok none) = none
sent (ok (some (respond_error status))) = none
sent (ok (some (response header body))) = some (header.status, body)

abbrev pub satisfied : Option Str → Option Str → Bool
satisfied none tag = false
satisfied (some inm) none = false
satisfied (some inm) (some tag) = if_none_match_satisfied inm tag

module _ (http : Http) (is_status : ℕ → Bool) where
  sent-whole :
      (stored : CachedResponse)
      → is_status stored.status ≡ true
      → sent (serve_whole http is_status stored) ≡ some (stored.status, stored.body)
  unfolding serve_whole
  sent-whole stored valid = rw valid refl

  sent-tag :
      (tag : Str) → is_status 304 ≡ true → sent (serve_tag http is_status tag) ≡ some (304, [])
  sent-tag tag valid = rw valid refl

  sent-tagged :
      (stored : CachedResponse) (inm tag : Option Str)
      → is_status 304 ≡ true
      → is_status stored.status ≡ true
      → sent (serve_tagged http is_status stored inm tag)
        ≡ (if satisfied inm tag then some (304, []) else some (stored.status, stored.body))
  sent-tagged stored none tag valid valid' = sent-whole stored valid'
  sent-tagged stored (some inm) none valid valid' = sent-whole stored valid'
  sent-tagged stored (some inm) (some tag) valid valid' =
      elim (Bool-cases (if_none_match_satisfied inm tag)) [
        | inl e ↦ rw e (sent-tag tag valid)
        | inr e ↦ rw e (sent-whole stored valid')
      ]

  -- With statuses that can be sent, a stored response is answered by 304 without a body if the request
  -- has the header If-None-Match, the response has an ETag, and the ETag satisfies the header.
  -- Otherwise the status and the whole body that are stored are sent.
  pub sent-serve_cache_hit :
      (stored : CachedResponse) (inm : Option Str)
      → is_status 304 ≡ true
      → is_status stored.status ≡ true
      → sent (serve_cache_hit http is_status stored inm) ≡ (
          if satisfied inm (etag stored) then some (304, []) else some (stored.status, stored.body))
  unfolding serve_cache_hit
  sent-serve_cache_hit stored inm valid valid' = sent-tagged stored inm (etag stored) valid valid'

  whole-replies : (stored : CachedResponse) → serve_whole http is_status stored ≢ ok none
  unfolding serve_whole
  whole-replies stored e = elim (Bool-cases (is_status stored.status)) [
    | inl h ↦ ground (arith, rw h at e)
    | inr h ↦ ground (arith, rw h at e)
  ]

  tag-replies : (tag : Str) → serve_tag http is_status tag ≢ ok none
  tag-replies tag e = elim (Bool-cases (is_status 304)) [
    | inl h ↦ ground (arith, rw h at e)
    | inr h ↦ ground (arith, rw h at e)
  ]

  tagged-replies :
      (stored : CachedResponse) (inm tag : Option Str)
      → serve_tagged http is_status stored inm tag ≢ ok none
  tagged-replies stored none tag e = whole-replies stored e
  tagged-replies stored (some inm) none e = whole-replies stored e
  tagged-replies stored (some inm) (some tag) e =
      elim (Bool-cases (if_none_match_satisfied inm tag)) [
        | inl h ↦ tag-replies tag (rw h at e)
        | inr h ↦ whole-replies stored (rw h at e)
      ]

  serve_cache_hit-replies :
      (stored : CachedResponse) (inm : Option Str)
      → serve_cache_hit http is_status stored inm ≢ ok none
  unfolding serve_cache_hit
  serve_cache_hit-replies stored inm e = tagged-replies stored inm (etag stored) e

  module _ (client : Client) {D : Type 0} (disk : Option (DiskTier D)) (read_timeout : Option ℕ)
      (cache_max_body : ℕ) where
    -- The answer of the upstream to the question whether a stale entry is still good.
    abbrev pub asks_back : Asked → Str → Target → Revalidated
    asks_back asked tag target =
        revalidate client target asked.path_and_query asked.host tag read_timeout cache_max_body

    -- The lifetime of a response that has been found to be good.
    abbrev pub renewed_for : CachedResponse → ℕ
    renewed_for stored = unwrap_or (stored_ttl stored) 60

    serve_stale-renews :
        (router : Router) (asked : Asked) (stored : CachedResponse) (now t : ℕ) (tag : Str)
        (target : Target) (s : CachePhase D)
        → etag stored ≡ some tag
        → (turn
            (match_route router (some asked.host) (before b'?' asked.path_and_query))
            s.memory).0
          ≡ some target
        → asks_back asked tag target ≡ not_modified
        → ((serve_stale http is_status client disk read_timeout cache_max_body router asked stored
              now s).0
            ≡ serve_cache_hit http is_status stored asked.if_none_match)
          × ((Store.lookup disk asked.key t
                (serve_stale http is_status client disk read_timeout cache_max_body router asked
                  stored now s).1.cache).0
              ≡ hit t (now + 1000 * renewed_for stored, stored))
    unfolding serve_stale revalidated
    serve_stale-renews router asked stored now t tag target s h_tag h_target h_good =
        rw h_tag (rw h_target (rw h_good (refl, lookup-put_any disk asked.key t _ _)))

    -- A stale entry with an ETag, whose route has a target that answers that it is not modified, is
    -- served as a fresh one would be, and from then on it is fresh again for the lifetime that its own
    -- headers give, or a minute.
    pub cache_phase-renews :
        (router : Router) (asked : Asked) (stored : CachedResponse) (now later t : ℕ) (tag : Str)
        (target : Target) (s : CachePhase D)
        → (Store.lookup disk asked.key now s.cache).0 ≡ stale stored
        → etag stored ≡ some tag
        → (turn
            (match_route router (some asked.host) (before b'?' asked.path_and_query))
            s.memory).0
          ≡ some target
        → asks_back asked tag target ≡ not_modified
        → t < later + 1000 * renewed_for stored
        → ((cache_phase_of http is_status client disk read_timeout cache_max_body router
              (some asked)
              now
              later
              s).0
            ≡ serve_cache_hit http is_status stored asked.if_none_match)
          × ((Store.lookup disk asked.key t
                (cache_phase_of http is_status client disk read_timeout cache_max_body router
                  (some asked)
                  now
                  later
                  s).1.cache).0
              ≡ fresh stored)
    unfolding cache_phase_of serve_found
    cache_phase-renews router asked stored now later t tag target s h_stale h_tag h_target h_good
          h_t =
        rw h_stale (
          let (reply, kept) =
            serve_stale-renews router asked stored later t tag target _ h_tag h_target h_good in
          (reply, kept ∙ hit-live t (later + 1000 * renewed_for stored) stored h_t))

    -- What a step may leave: the request goes on and the key is remembered, or it is answered, or
    -- has failed, and the key is what it was.
    abbrev pub Remembers : Option Str → Str → Filtered × CachePhase D → Type 0
    Remembers before_it key done =
        ((done.0 ≡ ok none) × (done.1.cache_key ≡ some key))
        ⊎ ((done.0 ≢ ok none) × (done.1.cache_key ≡ before_it))

    revalidated-Remembers :
        (asked : Asked) (stored : CachedResponse) (now : ℕ) (answer : Revalidated)
        (s : CachePhase D)
        → Remembers s.cache_key asked.key
            (revalidated http is_status client disk asked stored now answer s)
    unfolding revalidated
    revalidated-Remembers asked stored now not_modified s =
        inr (serve_cache_hit-replies stored asked.if_none_match, refl)
    revalidated-Remembers asked stored now (modified status headers body) s =
        elim (Option-cases
          (stored_ttl (record { status = status; headers = headers; body = body }))) [
            | inl e ↦ rw e (inr (serve_cache_hit-replies _ none, refl))
            | inr (ttl, e) ↦ rw e (inr (serve_cache_hit-replies _ none, refl))
          ]
    revalidated-Remembers asked stored now failed s = inl (refl, refl)

    revalidate_with-Remembers :
        (asked : Asked) (stored : CachedResponse) (now : ℕ) (tag : Option Str)
        (target : Option Target) (s : CachePhase D)
        → Remembers s.cache_key asked.key (
            revalidate_with http is_status client disk read_timeout cache_max_body asked stored now
              tag target s)
    revalidate_with-Remembers asked stored now none target s = inl (refl, refl)
    revalidate_with-Remembers asked stored now (some tag) none s = inl (refl, refl)
    revalidate_with-Remembers asked stored now (some tag) (some target) s =
        revalidated-Remembers asked stored now (asks_back asked tag target) s

    serve_found-Remembers :
        (router : Router) (asked : Asked) (now : ℕ) (found : Lookup) (s : CachePhase D)
        → Remembers s.cache_key asked.key (
            serve_found http is_status client disk read_timeout cache_max_body router asked now
              found s)
    unfolding serve_found serve_stale
    serve_found-Remembers router asked now miss s = inl (refl, refl)
    serve_found-Remembers router asked now (fresh stored) s =
        inr (serve_cache_hit-replies stored asked.if_none_match, refl)
    serve_found-Remembers router asked now (stale stored) s =
        revalidate_with-Remembers asked stored now (etag stored) _ _

    -- A request that may be served from the cache either gets a reply, or an error, and then the key
    -- that the context remembers is what it was; or it goes on, and what comes back may be stored
    -- under its key.
    pub cache_phase-Remembers :
        (router : Router) (asked : Asked) (now later : ℕ) (s : CachePhase D)
        → Remembers s.cache_key asked.key (
            cache_phase_of http is_status client disk read_timeout cache_max_body router
              (some asked)
              now
              later
              s)
    unfolding cache_phase_of
    cache_phase-Remembers router asked now later s =
        serve_found-Remembers router asked later (Store.lookup disk asked.key now s.cache).0
          (record s { cache = (Store.lookup disk asked.key now s.cache).1 })
