-- ===== src/Examples/Caching.antt =====
-- Small caches, and responses of an upstream.
use zaphyl.Prelude.{
  ◌&&◌, leb, if◌then◌else◌, ap, ℕ, ◌+◌, ◌*◌, ◌≤◌, ◌<◌, Bool, false, ◌≡◌, ◌↔◌, ◌⊎◌, refl, none, some,
  [], ◌∷◌, arith, length, and_then,
}
use zaphyl.Str.{Str, lit, contains}
use zaphyl.HashMap.{get, contains_key}
use zaphyl.Cache.Policy.{max_age, response_ttl}
use zaphyl.Cache.Policy.Safety.{Lists, VariesOnEncoding, response_ttl_iff}
use zaphyl.Cache.Key.{normalize_accept_encoding}
use zaphyl.Cache.Key.Injective.{key_injective}
use zaphyl.Cache.Store.{
  CachedResponse, ResponseCache, Entry, new, insert_memory, lookup, in_range, put,
}
use zaphyl.Cache.Store.Bounded.{IsBounded, operations-IsBounded}
use zaphyl.Cache.Store.Eviction.{insert_memory-evicts}
use zaphyl.Cache.Store.Served.{after, last_put, lookup-fresh, lookup-put}
use zaphyl.Proxy.{ResponseHeader, new_ctx}
use zaphyl.Proxy.Storing.{storable}
use zaphyl.Proxy.Storing.Whole.{concat, exchange, exchange-some}

response_ttl_iff_example : (response_ttl 200 (some (lit "max-age=60")) false none ≡ some 60) ↔ (
    (◌≡◌ {A = ℕ} 200 200)
    × (◌≡◌ {A = Bool} false false)
    × VariesOnEncoding none
    × (¬ Lists (some (lit "max-age=60")) (lit "no-store"))
    × (¬ Lists (some (lit "max-age=60")) (lit "no-cache"))
    × (¬ Lists (some (lit "max-age=60")) (lit "private"))
    × (and_then (some (lit "max-age=60")) max_age ≡ some 60)
    × (0 < 60))
response_ttl_iff_example = response_ttl_iff 200 (some (lit "max-age=60")) false none 60

key_injective_example :
    (lit "a.example" ≡ lit "a.example")
    × (lit "x" ≡ lit "x")
    × (normalize_accept_encoding (some (lit "br")) ≡ normalize_accept_encoding (some (lit "br")))
unfolding contains
key_injective_example =
    key_injective (lit "a.example") (lit "a.example") (lit "x") (lit "x") (some (lit "br"))
      (some (lit "br")) refl refl refl refl refl

abbrev page : CachedResponse
page = record { status = 200; headers = []; body = 1 ∷ 2 ∷ [] }

abbrev other_page : CachedResponse
other_page = record { status = 200; headers = []; body = 3 ∷ [] }

abbrev full : ResponseCache
full = record { max_entries = 1; entries = (lit "a", (9, page)) ∷ [] }

operations-IsBounded_example :
    IsBounded (new 0)
    × IsBounded (put {D = Unit {0}} none (lit "b") (5, page) (full, tt)).0
    × IsBounded (lookup {D = Unit {0}} none (lit "b") 1 (full, tt)).1.0
unfolding get
operations-IsBounded_example =
    operations-IsBounded none 0 full tt (lit "b") (5, page) 1
      (record { room = omega arith; size = omega arith; unique = (refl, tt) })

insert_memory-evicts_example :
    (get (lit "a") (insert_memory (lit "bb") (5, other_page) full).entries ≡ some (9, page))
    ⊎ ((get (lit "a") (insert_memory (lit "bb") (5, other_page) full).entries ≡ none)
        × (full.max_entries ≤ length full.entries)
        × (contains_key (lit "bb") full.entries ≡ false)
        × ((i : Str) (y : Entry) → get i full.entries ≡ some y → 9 ≤ y.0))
unfolding get zaphyl.Str.str_eq
insert_memory-evicts_example =
    insert_memory-evicts full (lit "bb") (lit "a") (5, other_page) (9, page) (refl, tt)
      (λ e. omega (arith, ap (λ (s : Str). length s) e)) refl

lookup-fresh_example :
    (t : ℕ) × (last_put (lit "a") ((lit "a", (5, page)) ∷ []) ≡ some (t, page)) × (3 < t)
unfolding lookup after put
lookup-fresh_example =
    lookup-fresh 1 ((lit "a", (5, page)) ∷ []) (lit "a") 3 page (lookup-put 1 [] (lit "a") 3 5 page)

abbrev cacheable : ResponseHeader
cacheable = record {
  status = 200;
  headers =
      (lit "cache-control", some (lit "max-age=60"))
      ∷ (lit "connection", some (lit "close"))
      ∷ (lit "etag", some (lit "v1"))
      ∷ [];
}

abbrev with_cookie : ResponseHeader
with_cookie = record {
  status = 200;
  headers =
      (lit "cache-control", some (lit "max-age=60")) ∷ (lit "set-cookie", some (lit "id=1")) ∷ [];
}

exchange-some_example :
    (exchange {D = Unit {0}} none 8 cacheable
      ((1 ∷ 2 ∷ []) ∷ (3 ∷ []) ∷ [])
      100
      (record (new_ctx 0) { cache_key = some (lit "a") }, (new 4, tt))).1
    ≡ (if leb (length (concat ((1 ∷ 2 ∷ []) ∷ (3 ∷ []) ∷ []))) 8 && in_range 100 60
        then put none
            (lit "a")
            (
              100 + 1000 * 60,
              record { status = 200; headers = storable cacheable.headers; body = 1 ∷ 2 ∷ 3 ∷ [] },
            )
            (new 4, tt)
        else (new 4, tt))
unfolding response_ttl zaphyl.Str.str_eq zaphyl.Str.split zaphyl.Str.trim zaphyl.Str.before
    zaphyl.Str.strip_prefix zaphyl.Str.parse_uint
exchange-some_example =
    exchange-some none 8 cacheable ((1 ∷ 2 ∷ []) ∷ (3 ∷ []) ∷ []) 0 100 60 (lit "a") (new 4, tt)
      refl
