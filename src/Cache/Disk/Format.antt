-- ===== src/Cache/Disk/Format.antt =====
-- crates/zaphyl-core/src/cache.rs, `encode`, `decode` and `Reader`: the bytes of a cache entry. The
-- times of entries are milliseconds; the file holds seconds.
pub mod RoundTrip
use zaphyl.Prelude.{
  ℕ, zero, suc, ◌+◌, ◌-◌, ◌*◌, ◌/◌, ◌%◌, ◌^◌, Bool, true, false, ◌&&◌, Option, none, some, List, [],
  ◌∷◌, ◌++◌, ltb, leb, if◌then◌else◌, length, take, drop, and_then, option_map,
}
use zaphyl.Str.{Str}
use zaphyl.Str.Utf8.{utf8, lossy}
use zaphyl.Cache.Store.{CachedResponse}

-- `to_le_bytes` and `from_le_bytes` of an integer with that many bytes.
unfoldable pub le_bytes : ℕ → ℕ → List ℕ
le_bytes zero n = []
le_bytes (suc k) n = (n % 256) ∷ le_bytes k (n / 256)

pub from_le : List ℕ → ℕ
from_le [] = 0
from_le (b ∷ bs) = b + 256 * from_le bs

-- `bytes.len() as u32` keeps the low 32 bits, which is what four bytes hold.
unfoldable pub write_bytes : List ℕ → List ℕ
unfolding le_bytes
write_bytes bytes = le_bytes 4 (length bytes) ++ bytes

unfoldable pub write_headers : List (Str × Str) → List ℕ
unfolding write_bytes
write_headers [] = []
write_headers ((name, value) ∷ headers) =
    write_bytes (utf8 name) ++ (write_bytes (utf8 value) ++ write_headers headers)

-- The order in which `out` is extended.
unfoldable pub encode : Str → ℕ → CachedResponse → List ℕ
unfolding write_headers write_bytes le_bytes
encode key expiry response =
    write_bytes (utf8 key)
    ++ (le_bytes 8 (expiry / 1000)
        ++ (le_bytes 2 response.status
            ++ (le_bytes 4 (length response.headers)
                ++ (write_headers response.headers
                    ++ (le_bytes 8 (length response.body) ++ response.body)))))

pub record Reader : Type 0 where
  pub buf : List ℕ
  pub pos : ℕ

abbrev pub Read {ℓ} : Type ℓ → Type ℓ
Read A = Reader → Option (A × Reader)

-- `checked_add`, then `get(pos..end)`.
pub take_bytes : ℕ → Read (List ℕ)
take_bytes n r =
    if ltb (r.pos + n) (2 ^ 64) && leb (r.pos + n) (length r.buf)
    then some (take n (drop r.pos r.buf), record r { pos = r.pos + n })
    else none

-- `u16`, `u32` and `u64`, by their number of bytes.
pub read_uint : ℕ → Read ℕ
unfolding take_bytes from_le
read_uint k r = option_map (λ t. (from_le t.0, t.1)) (take_bytes k r)

pub read_string : Read Str
unfolding read_uint take_bytes
read_string r =
    and_then (read_uint 4 r) (λ t. option_map (λ u. (lossy u.0, u.1)) (take_bytes t.0 t.1))

abbrev pub cons_header : Str → Str → List (Str × Str) × Reader → List (Str × Str) × Reader
cons_header name value (headers, r) = ((name, value) ∷ headers, r)

pub read_headers : ℕ → Read (List (Str × Str))
unfolding read_string
read_headers zero r = some ([], r)
read_headers (suc n) r = and_then (read_string r) (λ name.
    and_then (read_string name.1)
      (λ value. option_map (cons_header name.0 value.0) (read_headers n value.1)))

-- `UNIX_EPOCH + Duration::from_secs(…)` panics beyond the range of the system's time.
pub data Panics {ℓ} (A : Type ℓ) : Type ℓ where
  returns : A → Panics A
  panics : Panics A

abbrev pub Decoded : Type 0
Decoded = Str × (ℕ × CachedResponse)

pub read_response : Read CachedResponse
unfolding read_headers read_uint take_bytes
read_response r = and_then (read_uint 2 r) (λ status. and_then (read_uint 4 status.1) (λ count.
    and_then (read_headers count.0 count.1) (λ headers. and_then (read_uint 8 headers.1) (λ size.
      option_map
        (λ body. (record { status = status.0; headers = headers.0; body = body.0 }, body.1))
        (take_bytes size.0 size.1)))))

abbrev pub with_response : Str → ℕ → Option (CachedResponse × Reader) → Option Decoded
with_response key expiry none = none
with_response key expiry (some (response, r)) = some (key, (expiry, response))

abbrev pub read_rest : Str → Option (ℕ × Reader) → Panics (Option Decoded)
read_rest key none = returns none
read_rest key (some (seconds, r)) =
    if leb (2 ^ 63) seconds
    then panics
    else returns (with_response key (seconds * 1000) (read_response r))

abbrev pub read_entry : Option (Str × Reader) → Panics (Option Decoded)
read_entry none = returns none
read_entry (some (key, r)) = read_rest key (read_uint 8 r)

pub decode : List ℕ → Panics (Option Decoded)
unfolding read_string read_uint read_response
decode buf = read_entry (read_string (record { buf = buf; pos = 0 }))
