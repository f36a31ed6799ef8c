-- ===== src/Str/Utf8.antt =====
-- The UTF-8 bytes of a text, and `String::from_utf8_lossy`: each maximal piece of bytes that begins no
-- encoding becomes U+FFFD.
use zaphyl.Prelude.{
  Bool-cases, inl, inr, ltb→lt, ltb-false→le, ◌∙◌, ℕ, zero, suc, ◌+◌, ◌-◌, ◌*◌, ◌/◌, ◌%◌, ◌≤◌, ◌<◌,
  ◌≡◌, ◌⊎◌, refl, ap, Bool, ◌&&◌, List, [], ◌∷◌, ◌++◌, ltb, leb, ◌==◌, if◌then◌else◌, length,
  length-append, All, arith,
}
use zaphyl.Str.{Str}

abbrev pub IsScalar : ℕ → Type 0
IsScalar c = (c < 0xd800) ⊎ ((0xe000 ≤ c) × (c < 0x110000))

unfoldable pub encode_char : ℕ → List ℕ
encode_char c =
    if ltb c 0x80
    then c ∷ []
    else if ltb c 0x800
    then (0xc0 + c / 64) ∷ (0x80 + c % 64) ∷ []
    else if ltb c 0x10000
    then (0xe0 + c / 4096) ∷ (0x80 + c / 64 % 64) ∷ (0x80 + c % 64) ∷ []
    else (0xf0 + c / 262144) ∷ (0x80 + c / 4096 % 64) ∷ (0x80 + c / 64 % 64) ∷ (0x80 + c % 64) ∷ []

-- `s.as_bytes()`.
unfoldable pub utf8 : Str → List ℕ
unfolding encode_char
utf8 [] = []
utf8 (c ∷ s) = encode_char c ++ utf8 s

abbrev pub between : ℕ → ℕ → ℕ → Bool
between lo hi b = leb lo b && leb b hi

abbrev pub bad : ℕ
bad = 0xfffd

-- The last byte of a sequence, behind the value so far.
pub last_byte : ℕ → List ℕ → ℕ × List ℕ
last_byte acc [] = (bad, [])
last_byte acc (b ∷ rest) =
    if between 0x80 0xbf b then (acc * 64 + (b - 0x80), rest) else (bad, b ∷ rest)

pub two_bytes : ℕ → ℕ → ℕ → List ℕ → ℕ × List ℕ
unfolding last_byte
two_bytes lo hi acc [] = (bad, [])
two_bytes lo hi acc (b ∷ rest) =
    if between lo hi b then last_byte (acc * 64 + (b - 0x80)) rest else (bad, b ∷ rest)

pub three_bytes : ℕ → ℕ → ℕ → List ℕ → ℕ × List ℕ
unfolding two_bytes
three_bytes lo hi acc [] = (bad, [])
three_bytes lo hi acc (b ∷ rest) =
    if between lo hi b then two_bytes 0x80 0xbf (acc * 64 + (b - 0x80)) rest else (bad, b ∷ rest)

-- The character that starts with the byte, and what follows it. Some first bytes narrow the second.
pub decode_char : ℕ → List ℕ → ℕ × List ℕ
unfolding last_byte two_bytes three_bytes
decode_char b rest =
    if ltb b 0x80
    then (b, rest)
    else if between 0xc2 0xdf b
    then last_byte (b - 0xc0) rest
    else if between 0xe0 0xef b
    then two_bytes (if b == 0xe0 then 0xa0 else 0x80) (if b == 0xed then 0x9f else 0xbf) (b - 0xe0)
        rest
    else if between 0xf0 0xf4 b
    then three_bytes (if b == 0xf0 then 0x90 else 0x80) (if b == 0xf4 then 0x8f else 0xbf)
        (b - 0xf0) rest
    else (bad, rest)

pub lossy_from : ℕ → List ℕ → Str
unfolding decode_char
lossy_from fuel [] = []
lossy_from zero (b ∷ rest) = []
lossy_from (suc fuel) (b ∷ rest) = let (c, left) = decode_char b rest in c ∷ lossy_from fuel left

-- Each character takes a byte at least, so as many rounds as bytes are enough.
unfoldable pub lossy : List ℕ → Str
unfolding lossy_from
lossy bytes = lossy_from (length bytes) bytes

last_byte_lem :
    (acc b : ℕ) (rest : List ℕ) → b < 64 → last_byte acc ((0x80 + b) ∷ rest) ≡ (acc * 64 + b, rest)
unfolding last_byte
last_byte_lem acc b rest h = ground arith

two_bytes_lem :
    (lo hi acc b : ℕ) (rest : List ℕ)
    → b < 64
    → lo ≤ 0x80 + b
    → 0x80 + b ≤ hi
    → two_bytes lo hi acc ((0x80 + b) ∷ rest) ≡ last_byte (acc * 64 + b) rest
unfolding two_bytes
two_bytes_lem lo hi acc b rest h low high = ground arith

three_bytes_lem :
    (lo hi acc b : ℕ) (rest : List ℕ)
    → b < 64
    → lo ≤ 0x80 + b
    → 0x80 + b ≤ hi
    → three_bytes lo hi acc ((0x80 + b) ∷ rest) ≡ two_bytes 0x80 0xbf (acc * 64 + b) rest
unfolding three_bytes
three_bytes_lem lo hi acc b rest h low high = ground arith

decode_two :
    (c : ℕ) (rest : List ℕ)
    → 0x80 ≤ c
    → c < 0x800
    → decode_char (0xc0 + c / 64) ((0x80 + c % 64) ∷ rest) ≡ (c, rest)
unfolding decode_char
decode_two c rest low high = ground (arith, last_byte_lem (0xc0 + c / 64 - 0xc0) (c % 64) rest)

decode_three :
    (c : ℕ) (rest : List ℕ)
    → 0x800 ≤ c
    → c < 0x10000
    → IsScalar c
    → decode_char (0xe0 + c / 4096) ((0x80 + c / 64 % 64) ∷ (0x80 + c % 64) ∷ rest) ≡ (c, rest)
unfolding decode_char
decode_three c rest low high scalar = ground (
  arith,
  two_bytes_lem (if (0xe0 + c / 4096) == 0xe0 then 0xa0 else 0x80)
      (if (0xe0 + c / 4096) == 0xed then 0x9f else 0xbf) (0xe0 + c / 4096 - 0xe0) (c / 64 % 64)
      ((0x80 + c % 64) ∷ rest),
  last_byte_lem ((0xe0 + c / 4096 - 0xe0) * 64 + c / 64 % 64) (c % 64) rest,
)

decode_four :
    (c : ℕ) (rest : List ℕ)
    → 0x10000 ≤ c
    → c < 0x110000
    → decode_char
        (0xf0 + c / 262144)
        ((0x80 + c / 4096 % 64) ∷ (0x80 + c / 64 % 64) ∷ (0x80 + c % 64) ∷ rest)
      ≡ (c, rest)
unfolding decode_char
decode_four c rest low high = ground (
  arith,
  three_bytes_lem (if (0xf0 + c / 262144) == 0xf0 then 0x90 else 0x80)
      (if (0xf0 + c / 262144) == 0xf4 then 0x8f else 0xbf) (0xf0 + c / 262144 - 0xf0)
      (c / 4096 % 64) ((0x80 + c / 64 % 64) ∷ (0x80 + c % 64) ∷ rest),
  two_bytes_lem 0x80 0xbf ((0xf0 + c / 262144 - 0xf0) * 64 + c / 4096 % 64) (c / 64 % 64)
      ((0x80 + c % 64) ∷ rest),
  last_byte_lem (((0xf0 + c / 262144 - 0xf0) * 64 + c / 4096 % 64) * 64 + c / 64 % 64) (c % 64)
      rest,
)

decode_first : (c : ℕ) (rest : List ℕ) → c < 0x80 → decode_char c rest ≡ (c, rest)
unfolding decode_char
decode_first c rest h = ground arith

lossy_step :
    (fuel b c : ℕ) (rest left : List ℕ)
    → decode_char b rest ≡ (c, left)
    → lossy_from (suc fuel) (b ∷ rest) ≡ c ∷ lossy_from fuel left
unfolding lossy_from
lossy_step fuel b c rest left e = rw e refl

decode_one :
    (c : ℕ) (fuel : ℕ) (rest : List ℕ)
    → IsScalar c
    → lossy_from (suc fuel) (encode_char c ++ rest) ≡ c ∷ lossy_from fuel rest
unfolding encode_char
decode_one c fuel rest h = elim (Bool-cases (ltb c 0x80)) [
  | inl one ↦ rw one (lossy_step fuel c c rest rest (decode_first c rest (ltb→lt _ _ one)))
  | inr more ↦ elim (Bool-cases (ltb c 0x800)) [
    | inl two ↦
        rw (more, two)
          (lossy_step fuel _ c _ rest (decode_two c rest (ltb-false→le _ _ more) (ltb→lt _ _ two)))
    | inr more₂ ↦ elim (Bool-cases (ltb c 0x10000)) [
      | inl three ↦
          rw (more, more₂, three)
            (lossy_step fuel _ c _ rest
              (decode_three c rest (ltb-false→le _ _ more₂) (ltb→lt _ _ three) h))
      | inr four ↦
          let low = ltb-false→le _ _ four in
          rw (more, more₂, four) (lossy_step fuel _ c _ rest (decode_four c rest low (omega arith)))
    ]
  ]
]

length-encode_char : (c : ℕ) → 0 < length (encode_char c)
unfolding encode_char
length-encode_char c = ground arith

lossy_from-utf8 :
    (s : Str) (fuel : ℕ) → All IsScalar s → length (utf8 s) ≤ fuel → lossy_from fuel (utf8 s) ≡ s
unfolding utf8
lossy_from-utf8 [] fuel _ h = unfold lossy_from in refl
lossy_from-utf8 (c ∷ s) zero _ h =
    absurd (omega (arith, length-append (encode_char c) (utf8 s), length-encode_char c))
lossy_from-utf8 (c ∷ s) (suc fuel) (scalar, all) h =
    decode_one c fuel (utf8 s) scalar
    ∙ ap (◌∷◌ c) (
        lossy_from-utf8 s fuel all
          (omega (arith, length-append (encode_char c) (utf8 s), length-encode_char c)))

-- Text comes back from its bytes.
pub lossy-utf8 : (s : Str) → All IsScalar s → lossy (utf8 s) ≡ s
unfolding lossy
lossy-utf8 s h = lossy_from-utf8 s (length (utf8 s)) h (omega arith)
