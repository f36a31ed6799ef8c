-- ===== src/Http3/Encoder.antt =====
-- crates/zaphyl/src/http3.rs, `BodyEncoder` and the loop of `proxy_request` that sends a body through
-- it. The compressors of the crates flate2, brotli and zstd are an argument.
pub mod Framed
use zaphyl.Prelude.{
  ℕ, Bool, true, false, Option, none, some, List, [], ◌∷◌, ◌++◌, leb, if◌then◌else◌, Result, ok,
  err, try,
}
use zaphyl.Str.{Str}
use zaphyl.Http3.{Encoding, brotli, zstd, gzip}

-- A compressor that writes into a buffer.
pub record Codec : Type 1 where
  pub State : Type 0
  pub start : Encoding → ℕ → Result Str State
  -- `write_all` and `flush`, with what is then in the buffer.
  pub write : State → List ℕ → Result Str (List ℕ × State)
  pub finish : State → Result Str (List ℕ)

abbrev pub at_most : ℕ → ℕ → ℕ
at_most bound n = if leb n bound then n else bound

abbrev pub at_least : ℕ → ℕ → ℕ
at_least bound n = if leb bound n then n else bound

-- The configured level, within the range of the codec.
unfoldable pub level_for : Encoding → ℕ → ℕ
level_for gzip level = at_most 9 level
level_for brotli level = at_most 11 level
level_for zstd level = at_most 21 (at_least 1 level)

-- The lowest and the highest level that a codec knows.
abbrev pub lowest : Encoding → ℕ
lowest gzip = 0
lowest brotli = 0
lowest zstd = 1

abbrev pub highest : Encoding → ℕ
highest gzip = 9
highest brotli = 11
highest zstd = 22

-- `send_data`, but for nothing.
abbrev pub send_unless_empty : List ℕ → List (List ℕ) → List (List ℕ)
send_unless_empty [] frames = frames
send_unless_empty (byte ∷ bytes) frames = (byte ∷ bytes) ∷ frames

module _ (codec : Codec) where
  unfoldable pub new : Encoding → ℕ → Result Str (codec.State)
  unfolding level_for
  new encoding level = codec.start encoding (level_for encoding level)

  -- The frames that are sent for the chunks of a body, with those sent so far; an error ends them.
  unfoldable pub push_all :
      List (List ℕ) → List (List ℕ) × codec.State → Result Str (List (List ℕ) × codec.State)
  push_all [] state = ok state
  push_all (chunk ∷ chunks) (frames, s) =
      try (codec.write s chunk)
        (λ written. push_all chunks (frames ++ send_unless_empty written.0 [], written.1))

  abbrev pub with_tail : List (List ℕ) × codec.State → Result Str (List (List ℕ))
  with_tail (frames, s) = try (codec.finish s) (λ tail. ok (frames ++ send_unless_empty tail []))

  -- The frames of a whole body.
  unfoldable pub encode_body : Encoding → ℕ → List (List ℕ) → Result Str (List (List ℕ))
  unfolding push_all new
  encode_body encoding level chunks =
      try (new encoding level) (λ s. try (push_all chunks ([], s)) with_tail)
