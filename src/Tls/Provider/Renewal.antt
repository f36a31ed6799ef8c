-- ===== src/Tls/Provider/Renewal.antt =====
-- What handshakes get while a renewal writes its two files. A handshake is one step.
use zaphyl.Prelude.{
  ℕ, ◌≡◌, ◌≢◌, refl, ap, Option, none, some, ◌==◌, ==_iff, ==_refl, inl, inr, Bool-cases,
  option_map,
}
use zaphyl.Str.{Str}
use zaphyl.Tls.{Cached, get}
use zaphyl.Tls.Provider.{CertFiles, Pem, Loaded, cert_mtime, write_key, load, current}

module _ (pem : Pem) where
  pub record Server : Type 0 where
    pub files : CertFiles
    pub cached : Cached (Loaded pem)

  unfoldable pub shake : Server → Server
  shake s = record s { cached = (current pem s.files s.cached).1 }

  -- A handshake; or the key is written, while the certificate stands as it is.
  pub data Step (s : Server) : Server → Type 0 where
    handshake : Step s (shake s)
    key_written : (text : Str) → Step s (record s { files = write_key text s.files })

  pub data Reach (s : Server) : Server → Type 0 where
    start : Reach s s
    later : {t u : Server} → Reach s t → Step t u → Reach s u

  -- The pair in memory was read at the modification time that the certificate still has.
  abbrev Holds : ℕ → Loaded pem → Server → Type 0
  Holds mtime pair s = (cert_mtime s.files ≡ some mtime) × (s.cached ≡ some (mtime, pair))

  Holds-current :
      (mtime : ℕ) (pair : Loaded pem) (s : Server)
      → Holds mtime pair s
      → current pem s.files s.cached ≡ (some pair, some (mtime, pair))
  unfolding current get
  Holds-current mtime pair s (time, kept) = rw (time, kept) (rw (==_refl mtime) refl)

  Step-Holds :
      (mtime : ℕ) (pair : Loaded pem) {s t : Server}
      → Step s t
      → Holds mtime pair s
      → Holds mtime pair t
  unfolding shake
  Step-Holds mtime pair {s} handshake h = (
    h.0,
    ap (λ (r : Option (Loaded pem) × Cached (Loaded pem)). r.1) (Holds-current mtime pair s h),
  )
  Step-Holds mtime pair (key_written text) h = h

  Reach-Holds :
      (mtime : ℕ) (pair : Loaded pem) {s t : Server}
      → Reach s t
      → Holds mtime pair s
      → Holds mtime pair t
  Reach-Holds mtime pair start h = h
  Reach-Holds mtime pair (later r step) h = Step-Holds mtime pair step (Reach-Holds mtime pair r h)

  -- The time at which the pair in memory was read.
  abbrev pub read_at : Cached (Loaded pem) → Option ℕ
  read_at cached = option_map (λ c. c.0) cached

  refreshed :
      (mtime : ℕ) (pair : Loaded pem) (cached : Cached (Loaded pem))
      → read_at cached ≢ some mtime
      → (get (some mtime) (some pair) cached).1 ≡ some (mtime, pair)
  unfolding get
  refreshed mtime pair none old = refl
  refreshed mtime pair (some (time, value)) old = elim (Bool-cases (time == mtime)) [
    | inl e ↦ absurd (old (ap some ((==_iff time mtime).0 e)))
    | inr e ↦ rw e refl
  ]

  first-Holds :
      (mtime : ℕ) (pair : Loaded pem) (s : Server)
      → cert_mtime s.files ≡ some mtime
      → read_at s.cached ≢ some mtime
      → load pem s.files ≡ some pair
      → Holds mtime pair (shake s)
  unfolding shake current
  first-Holds mtime pair s time old loaded =
      (time, rw (time, loaded) (refreshed mtime pair s.cached old))

  -- The first handshake behind the writing of a certificate, which gives it a new modification time,
  -- decides for all that follow: whenever and whatever is written to the file of the key from then on,
  -- every handshake gets the pair of that certificate and of the key that stood in its file at the
  -- first one.
  pub current-fixed :
      (mtime : ℕ) (pair : Loaded pem) (s t : Server)
      → cert_mtime s.files ≡ some mtime
      → read_at s.cached ≢ some mtime
      → load pem s.files ≡ some pair
      → Reach (shake s) t
      → (current pem t.files t.cached).0 ≡ some pair
  current-fixed mtime pair s t time old loaded r =
      ap (λ (c : Option (Loaded pem) × Cached (Loaded pem)). c.0)
        (Holds-current mtime pair t
          (Reach-Holds mtime pair r (first-Holds mtime pair s time old loaded)))
