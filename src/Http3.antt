-- ===== src/Http3.antt =====
-- crates/zaphyl/src/http3.rs: the choice of a content-coding, the body that is kept for the cache, and
-- the methods that may come as early data. Whether a text reads as a float that is zero is told by the
-- standard library.
use zaphyl.Prelude.{
  ℕ, ◌+◌, Bool, true, false, not, ◌&&◌, ◌||◌, Option, none, some, List, [], ◌∷◌, ◌++◌, ltb, length,
  any, and_then, if◌then◌else◌, is_some_and,
}
use zaphyl.Str.{Str, lit, str_eq, trim, split_first, split, strip_prefix, eq_ignore_ascii_case}
use zaphyl.Proxy.{HeaderMap, header_text}
pub mod Listener
pub mod Negotiated
pub mod Serving
pub mod Cached
pub mod Upload
pub mod Request
pub mod Relay
pub mod Connection
pub mod Encoder

-- The buffer and the flag of `accumulate_cache_body`.
unfoldable pub accumulate_cache_body : Bool → List ℕ → Bool → List ℕ → ℕ → List ℕ × Bool
accumulate_cache_body active buf overflow chunk max =
    if active && not overflow
    then if ltb max (length buf + length chunk) then ([], true) else (buf ++ chunk, overflow)
    else (buf, overflow)

unfoldable pub is_safe_method : Str → Bool
is_safe_method method =
    any (str_eq method) (lit "GET" ∷ lit "HEAD" ∷ lit "OPTIONS" ∷ lit "TRACE" ∷ [])

pub data Encoding : Type 0 where
  brotli zstd gzip : Encoding

pub header_value : Encoding → Str
header_value brotli = lit "br"
header_value zstd = lit "zstd"
header_value gzip = lit "gzip"

abbrev pub or_else : Option Str → Option Str → Option Str
or_else none o = o
or_else (some s) o = some s

module _ (is_zero_float : Str → Bool) where
  pub refuses : Str → Bool
  refuses field =
      is_some_and
        (or_else (strip_prefix (lit "q=") (trim field)) (strip_prefix (lit "Q=") (trim field)))
        is_zero_float

  unfoldable pub accepts_part : Str → Str → Bool
  accepts_part coding part =
      let (name, fields) = split_first b';' (trim part) in
      eq_ignore_ascii_case (trim name) coding && not (any refuses fields)

  unfoldable pub accepts_coding : Str → Str → Bool
  accepts_coding header coding = any (accepts_part coding) (split b',' header)

  unfoldable pub first_accepted : Str → List (Str × Encoding) → Option Encoding
  first_accepted header [] = none
  first_accepted header ((token, encoding) ∷ rest) =
      if accepts_coding header token then some encoding else first_accepted header rest

  unfoldable pub negotiate_encoding : HeaderMap → Option Encoding
  unfolding first_accepted
  negotiate_encoding headers = and_then (header_text (lit "accept-encoding") headers) (λ header.
      first_accepted header ((lit "br", brotli) ∷ (lit "zstd", zstd) ∷ (lit "gzip", gzip) ∷ []))
