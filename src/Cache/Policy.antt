-- ===== src/Cache/Policy.antt =====
-- crates/zaphyl-core/src/cache.rs: which requests and responses may be cached, and ETag matching.
-- A duration is its number of seconds.
use zaphyl.Prelude.{
  ℕ, ◌^◌, Bool, true, false, not, ◌&&◌, ◌||◌, Option, none, some, List, [], ◌∷◌, ◌==◌, ltb,
  if◌then◌else◌, any, all, and_then, is_some_and, unwrap_or,
}
use zaphyl.Str.{
  Str, lit, str_eq, trim, split, before, strip_prefix, parse_uint, eq_ignore_ascii_case,
}
pub mod Safety

-- The token of one part of a `Cache-Control` value.
unfoldable pub directive_of : Str → Str
directive_of part = trim (before b'=' (trim part))

unfoldable pub has_directive : Option Str → Str → Bool
unfolding directive_of
has_directive cache_control directive =
    is_some_and cache_control
      (λ value. any (λ part. str_eq (directive_of part) directive) (split b',' value))

unfoldable pub find_map {ℓ κ} : {A : Type ℓ} {B : Type κ} → (A → Option B) → List A → Option B
find_map f [] = none
find_map f (x ∷ xs) = elim (f x) [ some y ↦ some y | none ↦ find_map f xs ]

unfoldable pub max_age_of : Str → Option ℕ
max_age_of part =
    and_then (strip_prefix (lit "max-age=") (trim part)) (λ n. parse_uint (2 ^ 64) (trim n))

unfoldable pub max_age : Str → Option ℕ
unfolding find_map max_age_of
max_age cache_control = find_map max_age_of (split b',' cache_control)

unfoldable pub vary_cacheable : Option Str → Bool
vary_cacheable none = true
vary_cacheable (some value) =
    not (str_eq (trim value) (lit "*"))
    && all (λ token. eq_ignore_ascii_case (trim token) (lit "accept-encoding"))
        (split b',' (trim value))

unfoldable pub request_cacheable : Str → Option Str → Bool → Bool
unfolding has_directive
request_cacheable method cache_control has_authorization =
    str_eq method (lit "GET")
    && not has_authorization
    && not (has_directive cache_control (lit "no-store"))
    && not (has_directive cache_control (lit "no-cache"))

-- The `match` on the age: it has to be there and to be more than zero.
unfoldable pub positive : Option ℕ → Option ℕ
positive none = none
positive (some seconds) = if ltb 0 seconds then some seconds else none

unfoldable pub response_ttl : ℕ → Option Str → Bool → Option Str → Option ℕ
unfolding has_directive positive vary_cacheable max_age
response_ttl status cache_control has_set_cookie vary =
    if not (status == 200) || has_set_cookie || not (vary_cacheable vary)
    then none
    else if has_directive cache_control (lit "no-store")
        || has_directive cache_control (lit "no-cache")
        || has_directive cache_control (lit "private")
    then none
    else and_then cache_control (λ value. positive (max_age value))

pub strip_weak : Str → Str
strip_weak etag = trim (unwrap_or (strip_prefix (lit "W/") (trim etag)) etag)

pub if_none_match_satisfied : Str → Str → Bool
unfolding strip_weak
if_none_match_satisfied if_none_match etag =
    let value = trim if_none_match in
    if str_eq value (lit "*")
    then true
    else any (λ candidate. str_eq (strip_weak (trim candidate)) (strip_weak etag))
        (split b',' value)
