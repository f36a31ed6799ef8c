-- ===== src/Cache/Disk/Format/RoundTrip.antt =====
-- An entry comes back from its bytes.
use zaphyl.Prelude.{
  sym, subst, suc, ap, ◌∙◌, ◌∷◌, false, ◌*◌, append-nil, [], subst, ◌&&◌, ℕ, zero, suc, ◌+◌, ◌/◌,
  ◌^◌, ◌<◌, ◌≡◌, refl, true, some, List, ◌++◌, ltb, leb, length, All, arith, length-append,
  append_assoc, drop-append, take-append,
}
use zaphyl.Str.{Str}
use zaphyl.Str.Utf8.{utf8, IsScalar, lossy-utf8}
use zaphyl.Cache.Disk.Format.{
  returns, write_headers, encode, read_response, read_headers, decode, CachedResponse, le_bytes,
  from_le, write_bytes, Reader, take_bytes, read_uint, read_string,
}

length-le_bytes : (k n : ℕ) → length (le_bytes k n) ≡ k
unfolding le_bytes
length-le_bytes zero n = refl
length-le_bytes (suc k) n = omega (arith, length-le_bytes k (n / 256))

from_le-le_bytes : (k n : ℕ) → n < 256 ^ k → from_le (le_bytes k n) ≡ n
unfolding le_bytes from_le
from_le-le_bytes zero n h = omega arith
from_le-le_bytes (suc k) n h = omega (arith, from_le-le_bytes k (n / 256) (omega arith))

-- The reader behind what it has read.
abbrev at : List ℕ → List ℕ → Reader
at pre rest = record { buf = pre ++ rest; pos = length pre }

abbrev Fits : List ℕ → List ℕ → Type 0
Fits pre rest = length pre + length rest < 2 ^ 64

take-at :
    (pre mid post : List ℕ)
    → Fits pre (mid ++ post)
    → take_bytes (length mid) (at pre (mid ++ post)) ≡ some (mid, at (pre ++ mid) post)
unfolding take_bytes
take-at pre mid post h =
    let fits : (ltb (length pre + length mid) (2 ^ 64)
          && leb (length pre + length mid) (length (pre ++ (mid ++ post))))
        ≡ true =
      ground (arith, length-append pre (mid ++ post), length-append mid post) in
    rw fits (
      rw (drop-append pre (mid ++ post), take-append mid post)
        (rw (append_assoc pre mid post, length-append pre mid) refl))

Fits-step : (pre mid post : List ℕ) → Fits pre (mid ++ post) → Fits (pre ++ mid) post
Fits-step pre mid post h = omega (arith, length-append pre mid, length-append mid post)

read_uint-at :
    (k n : ℕ) (pre post : List ℕ)
    → n < 256 ^ k
    → Fits pre (le_bytes k n ++ post)
    → read_uint k (at pre (le_bytes k n ++ post)) ≡ some (n, at (pre ++ le_bytes k n) post)
unfolding read_uint
read_uint-at k n pre post h fits =
    let t = take-at pre (le_bytes k n) post fits in
    let t' : take_bytes k (at pre (le_bytes k n ++ post))
        ≡ some (le_bytes k n, at (pre ++ le_bytes k n) post) =
      subst
        (λ m.
          take_bytes m (at pre (le_bytes k n ++ post))
          ≡ some (le_bytes k n, at (pre ++ le_bytes k n) post))
        (length-le_bytes k n) t in
    rw t' (rw (from_le-le_bytes k n h) refl)

-- A text whose bytes can be counted by 32 bits.
abbrev pub IsShort : Str → Type 0
IsShort s = All IsScalar s × (length (utf8 s) < 2 ^ 32)

read_string-at :
    (s : Str) (pre post : List ℕ)
    → IsShort s
    → Fits pre (write_bytes (utf8 s) ++ post)
    → read_string (at pre (write_bytes (utf8 s) ++ post))
      ≡ some (s, at (pre ++ write_bytes (utf8 s)) post)
unfolding read_string write_bytes
read_string-at s pre post (scalar, short) fits =
    let size = le_bytes 4 (length (utf8 s)) in
    let fits₁ : Fits pre (size ++ (utf8 s ++ post)) = omega (
      arith,
      length-append (size ++ utf8 s) post,
      length-append size (utf8 s ++ post),
      length-append size (utf8 s),
      length-append (utf8 s) post,
    ) in
    let u = read_uint-at 4 (length (utf8 s)) pre (utf8 s ++ post) (omega arith) fits₁ in
    let t = take-at (pre ++ size) (utf8 s) post (Fits-step pre size (utf8 s ++ post) fits₁) in
    rw (append_assoc size (utf8 s) post, u)
      (rw t (rw (lossy-utf8 s scalar, append_assoc pre size (utf8 s)) refl))

abbrev pub IsShortHeader : Str × Str → Type 0
IsShortHeader h = IsShort h.0 × IsShort h.1

read_headers-at :
    (hs : List (Str × Str)) (pre post : List ℕ)
    → All IsShortHeader hs
    → Fits pre (write_headers hs ++ post)
    → read_headers (length hs) (at pre (write_headers hs ++ post))
      ≡ some (hs, at (pre ++ write_headers hs) post)
unfolding read_headers write_headers
read_headers-at [] pre post _ fits = rw append-nil refl
read_headers-at ((name, value) ∷ hs) pre post (both, short) fits =
    let a = write_bytes (utf8 name) in
    let b = write_bytes (utf8 value) in
    let c = write_headers hs in
    let e : (a ++ (b ++ c)) ++ post ≡ a ++ (b ++ (c ++ post)) =
      append_assoc a (b ++ c) post ∙ ap (λ x. a ++ x) (append_assoc b c post) in
    let fits₁ : Fits pre (a ++ (b ++ (c ++ post))) = subst (λ x. Fits pre x) e fits in
    let fits₂ = Fits-step pre a (b ++ (c ++ post)) fits₁ in
    let fits₃ = Fits-step (pre ++ a) b (c ++ post) fits₂ in
    let e' : (pre ++ a ++ b) ++ c ≡ pre ++ (a ++ (b ++ c)) =
      append_assoc (pre ++ a) b c ∙ append_assoc pre a (b ++ c) in
    subst
      (λ x.
        read_headers (suc (length hs)) (at pre x)
        ≡ some ((name, value) ∷ hs, at (pre ++ (a ++ (b ++ c))) post))
      (sym e)
      (rw (read_string-at name pre (b ++ (c ++ post)) both.0 fits₁) (
        rw (read_string-at value (pre ++ a) (c ++ post) both.1 fits₂)
          (rw (read_headers-at hs (pre ++ a ++ b) post short fits₃) (rw e' refl))))

-- What the fields of the format can hold: 16 bits for the status, 32 for the number of headers and
-- for each length, 64 for the size of the body, and text in scalar values.
pub record IsStorable (key : Str) (response : CachedResponse) : Type 0 where
  pub key_short : IsShort key
  pub status : response.status < 2 ^ 16
  pub count : length response.headers < 2 ^ 32
  pub headers : All IsShortHeader response.headers

abbrev response_bytes : CachedResponse → List ℕ
response_bytes r =
    le_bytes 2 r.status
    ++ (le_bytes 4 (length r.headers)
        ++ (write_headers r.headers ++ (le_bytes 8 (length r.body) ++ r.body)))

read_response-at :
    (key : Str) (r : CachedResponse) (pre : List ℕ)
    → IsStorable key r
    → Fits pre (response_bytes r)
    → (end : List ℕ) × (read_response (at pre (response_bytes r)) ≡ some (r, at end []))
unfolding read_response
read_response-at key r pre ok fits =
    let s = le_bytes 2 r.status in
    let n = le_bytes 4 (length r.headers) in
    let h = write_headers r.headers in
    let l = le_bytes 8 (length r.body) in
    let fits₁ = Fits-step pre s (n ++ (h ++ (l ++ r.body))) fits in
    let fits₂ = Fits-step (pre ++ s) n (h ++ (l ++ r.body)) fits₁ in
    let fits₃ = Fits-step (pre ++ s ++ n) h (l ++ r.body) fits₂ in
    let fits₄ = Fits-step (pre ++ s ++ n ++ h) l r.body fits₃ in
    let fits₅ : Fits (pre ++ s ++ n ++ h ++ l) (r.body ++ []) = rw append-nil fits₄ in
    let body = take-at (pre ++ s ++ n ++ h ++ l) r.body [] fits₅ in
    (
      pre ++ s ++ n ++ h ++ l ++ r.body,
      rw (read_uint-at 2 r.status pre (n ++ (h ++ (l ++ r.body))) (omega (arith, ok.status)) fits) (
          rw
            (read_uint-at 4 (length r.headers) (pre ++ s) (h ++ (l ++ r.body))
              (omega (arith, ok.count)) fits₁)
            (rw (read_headers-at r.headers (pre ++ s ++ n) (l ++ r.body) ok.headers fits₂) (
              rw (read_uint-at 8 (length r.body) (pre ++ s ++ n ++ h) r.body (omega arith) fits₃)
                (rw (rw append-nil at body) refl)))),
    )

-- An entry comes back from its bytes, its expiry rounded down to seconds, if its fields fit the format
-- and its expiry the system's time.
pub decode-encode :
    (key : Str) (expiry : ℕ) (response : CachedResponse)
    → IsStorable key response
    → expiry / 1000 < 2 ^ 63
    → length (encode key expiry response) < 2 ^ 64
    → decode (encode key expiry response) ≡ returns (some (key, (expiry / 1000 * 1000, response)))
unfolding decode encode
decode-encode key expiry response ok soon small =
    let k = write_bytes (utf8 key) in
    let t = le_bytes 8 (expiry / 1000) in
    let fits : Fits [] (k ++ (t ++ response_bytes response)) = omega arith in
    let fits₁ = Fits-step [] k (t ++ response_bytes response) fits in
    let fits₂ = Fits-step k t (response_bytes response) fits₁ in
    let (end, whole) = read_response-at key response (k ++ t) ok fits₂ in
    let early : leb (2 ^ 63) (expiry / 1000) ≡ false = ground arith in
    rw (read_string-at key [] (t ++ response_bytes response) ok.key_short fits) (
      rw (read_uint-at 8 (expiry / 1000) k (response_bytes response) (omega arith) fits₁)
        (rw (early, whole) refl))
