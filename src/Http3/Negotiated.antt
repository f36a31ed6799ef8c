-- ===== src/Http3/Negotiated.antt =====
-- That the coding chosen is the best that the client accepts, and that both fronts keep one body.
use zaphyl.Prelude.{◌<◌, ℕ, Bool, true, false, ◌≡◌, some, List, arith}
use zaphyl.Str.{Str, lit}
use zaphyl.Proxy.{HeaderMap, header_text, RequestCtx}
use zaphyl.Proxy.Storing.{keep_chunk}
use zaphyl.Http3.{
  accumulate_cache_body, Encoding, brotli, zstd, gzip, header_value, accepts_coding, first_accepted,
  negotiate_encoding,
}

-- The rank of a coding in the preference of the server.
abbrev pub rank : Encoding → ℕ
rank brotli = 0
rank zstd = 1
rank gzip = 2

-- A coding is chosen only for a request that has the header, and one that the header accepts; no
-- coding that ranks before it is accepted.
pub negotiate_encoding_best :
    (is_zero_float : Str → Bool) (headers : HeaderMap) (header : Str) (e better : Encoding)
    → header_text (lit "accept-encoding") headers ≡ some header
    → negotiate_encoding is_zero_float headers ≡ some e
    → rank better < rank e
    → (accepts_coding is_zero_float header (header_value e) ≡ true)
      × (accepts_coding is_zero_float header (header_value better) ≡ false)
unfolding negotiate_encoding first_accepted header_value
negotiate_encoding_best is_zero_float headers header brotli better h n less = absurd (omega arith)
negotiate_encoding_best is_zero_float headers header zstd brotli h n less =
    ground (arith, rw h at n)
negotiate_encoding_best is_zero_float headers header zstd zstd h n less = absurd (omega arith)
negotiate_encoding_best is_zero_float headers header zstd gzip h n less = absurd (omega arith)
negotiate_encoding_best is_zero_float headers header gzip brotli h n less =
    ground (arith, rw h at n)
negotiate_encoding_best is_zero_float headers header gzip zstd h n less = ground (arith, rw h at n)
negotiate_encoding_best is_zero_float headers header gzip gzip h n less = absurd (omega arith)

-- For a response that is being kept, the HTTP/3 front keeps the same bytes of a chunk as the proxy
-- does, and gives up at the same size.
pub accumulate-keep_chunk :
    (max : ℕ) (chunk : List ℕ) (ctx : RequestCtx)
    → ctx.cache_overflow ≡ false
    → accumulate_cache_body true ctx.cache_body ctx.cache_overflow chunk max ≡ (
      (keep_chunk max (some chunk) ctx).cache_body,
      (keep_chunk max (some chunk) ctx).cache_overflow,
    )
unfolding accumulate_cache_body keep_chunk
accumulate-keep_chunk max chunk ctx h = ground arith
