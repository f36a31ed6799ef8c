-- ===== src/Http3/Encoder/Framed.antt =====
-- That the frames carry the compressed stream, none of them empty, at a level that the codec knows.
use zaphyl.Prelude.{
  All-append, ℕ, ◌≤◌, ◌≡◌, ◌≢◌, refl, ◌∙◌, sym, ap, List, [], ◌∷◌, ◌++◌, append_assoc, append-nil,
  arith, Result, ok, err, try, All,
}
use zaphyl.Str.{Str}
use zaphyl.Http3.{Encoding, brotli, zstd, gzip}
use zaphyl.Proxy.Storing.Whole.{concat}
use zaphyl.Http3.Encoder.{
  Codec, level_for, lowest, highest, new, send_unless_empty, push_all, with_tail, encode_body,
}

-- Whatever level is configured, the codec gets one that it knows.
pub level_for_bounds :
    (encoding : Encoding) (level : ℕ)
    → (lowest encoding ≤ level_for encoding level) × (level_for encoding level ≤ highest encoding)
unfolding level_for
level_for_bounds gzip level = ground arith
level_for_bounds brotli level = ground arith
level_for_bounds zstd level = ground arith

concat-append : (xs ys : List (List ℕ)) → concat (xs ++ ys) ≡ concat xs ++ concat ys
concat-append [] ys = refl
concat-append (x ∷ xs) ys = rw (concat-append xs ys) (sym (append_assoc x (concat xs) (concat ys)))

abbrev pub NonEmpty : List (List ℕ) → Type 0
NonEmpty frames = All (λ frame. frame ≢ []) frames

-- One more frame, if there is something to send.
sent_lem :
    (bytes : List ℕ) (frames : List (List ℕ))
    → NonEmpty frames
    → NonEmpty (frames ++ send_unless_empty bytes [])
      × (concat (frames ++ send_unless_empty bytes []) ≡ concat frames ++ bytes)
sent_lem [] frames h = (rw append-nil h, rw (append-nil frames) (sym (append-nil (concat frames))))
sent_lem (byte ∷ bytes) frames h = (
  All-append (λ frame. frame ≢ []) frames ((byte ∷ bytes) ∷ []) h (λ e. cc, tt),
  concat-append frames ((byte ∷ bytes) ∷ [])
      ∙ ap (λ (l : List ℕ). concat frames ++ l) (append-nil (byte ∷ bytes)),
)

module _ (codec : Codec) where
  -- What the codec puts out for the chunks, frame or no frame.
  abbrev pub stream : List (List ℕ) → codec.State → Result Str (List ℕ)
  stream [] s = codec.finish s
  stream (chunk ∷ chunks) s =
      try (codec.write s chunk) (λ w. try (stream chunks w.1) (λ rest. ok (w.0 ++ rest)))

  -- The frames sent are the first, with frames behind them that carry the stream; or both fail alike.
  abbrev pub Carries : List (List ℕ) → Result Str (List ℕ) → Result Str (List (List ℕ)) → Type 0
  Carries frames (ok bytes) (ok out) = NonEmpty out × (concat out ≡ concat frames ++ bytes)
  Carries frames (ok bytes) (err e) = ⊥
  Carries frames (err e) (ok out) = ⊥
  Carries frames (err e) (err e') = e ≡ e'

  shifted :
      (frames frames' : List (List ℕ)) (bytes : List ℕ) (x : Result Str (List ℕ))
      (out : Result Str (List (List ℕ)))
      → concat frames' ≡ concat frames ++ bytes
      → Carries frames' x out
      → Carries frames (try x (λ rest. ok (bytes ++ rest))) out
  shifted frames frames' bytes (ok rest) (ok out) e (full, h) =
      (full, h ∙ (ap (λ (l : List ℕ). l ++ rest) e ∙ append_assoc (concat frames) bytes rest))
  shifted frames frames' bytes (ok rest) (err e') e h = h
  shifted frames frames' bytes (err e') (ok out) e h = h
  shifted frames frames' bytes (err e') (err e'') e h = h

  finished :
      (frames : List (List ℕ)) (tail : Result Str (List ℕ))
      → NonEmpty frames
      → Carries frames tail (try tail (λ bytes. ok (frames ++ send_unless_empty bytes [])))
  finished frames (err e) h = refl
  finished frames (ok bytes) h = sent_lem bytes frames h

  Continues : List (List ℕ) → Type 0
  Continues chunks =
      (frames : List (List ℕ)) (s : codec.State)
      → NonEmpty frames
      → Carries frames (stream chunks s) (try (push_all codec chunks (frames, s)) (with_tail codec))

  pushed :
      (chunks frames : List (List ℕ)) (w : Result Str (List ℕ × codec.State))
      → Continues chunks
      → NonEmpty frames
      → Carries frames (try w (λ w. try (stream chunks w.1) (λ rest. ok (w.0 ++ rest)))) (
          try
            (try w (λ w. push_all codec chunks (frames ++ send_unless_empty w.0 [], w.1)))
            (with_tail codec))
  unfolding Continues
  pushed chunks frames (err e) ih h = refl
  pushed chunks frames (ok (bytes, s)) ih h =
      let (full, e) = sent_lem bytes frames h in
      shifted frames (frames ++ send_unless_empty bytes []) bytes (stream chunks s) _ e
        (ih _ s full)

  push_all-Carries : (chunks : List (List ℕ)) → Continues chunks
  unfolding Continues push_all
  push_all-Carries [] frames s h = finished frames (codec.finish s) h
  push_all-Carries (chunk ∷ chunks) frames s h =
      pushed chunks frames (codec.write s chunk) (push_all-Carries chunks) h

  begun :
      (chunks : List (List ℕ)) (s : Result Str (codec.State))
      → Carries []
          (try s (stream chunks))
          (try s (λ s. try (push_all codec chunks ([], s)) (with_tail codec)))
  unfolding Continues
  begun chunks (err e) = refl
  begun chunks (ok s) = push_all-Carries chunks [] s tt

  -- The body that is sent is the compressed stream, whole and in order: the frames put together are
  -- what the codec puts out for the chunks and the end, no frame is empty, and sending fails exactly
  -- if the codec fails, with its error.
  pub encode_body-Carries :
      (encoding : Encoding) (level : ℕ) (chunks : List (List ℕ))
      → Carries []
          (try (new codec encoding level) (stream chunks))
          (encode_body codec encoding level chunks)
  unfolding encode_body
  encode_body-Carries encoding level chunks = begun chunks (new codec encoding level)
