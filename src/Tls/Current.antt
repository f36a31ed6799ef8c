-- ===== src/Tls/Current.antt =====
-- That a handshake gets the value of the file's present modification time.
use zaphyl.Prelude.{inr, sym, ==_iff, inl, ◌≡◌, refl, ◌==◌, Bool-cases, some, ◌≡◌, ℕ, Option, none}
use zaphyl.Tls.{keep_loaded, Cached, get}

-- The caches that a run of the server goes through. `version` is what loading gives while the file
-- has that modification time; where the file is missing, anything may be passed.
pub data IsReachable {T : Type 0} (version : ℕ → Option T) : Cached T → Type 0 where
  start : IsReachable version none
  missing :
      (loaded : Option T) (cached : Cached T)
      → IsReachable version cached
      → IsReachable version (get none loaded cached).1
  handshake :
      (mtime : ℕ) (cached : Cached T)
      → IsReachable version cached
      → IsReachable version (get (some mtime) (version mtime) cached).1

-- What is kept is what loading gave at its time.
abbrev pub IsCurrent : {T : Type 0} → (ℕ → Option T) → Cached T → Type 0
IsCurrent version none = Unit {0}
IsCurrent version (some (mtime, value)) = version mtime ≡ some value

module _ {T : Type 0} (version : ℕ → Option T) where
  loaded-IsCurrent :
      (mtime : ℕ) (loaded : Option T) (cached : Cached T)
      → version mtime ≡ loaded
      → IsCurrent version cached
      → ((keep_loaded mtime loaded cached).0 ≡ loaded)
        × IsCurrent version (keep_loaded mtime loaded cached).1
  loaded-IsCurrent mtime none cached e h = (refl, h)
  loaded-IsCurrent mtime (some value) cached e h = (refl, e)

  get-IsCurrent :
      (mtime : ℕ) (cached : Cached T)
      → IsCurrent version cached
      → ((get (some mtime) (version mtime) cached).0 ≡ version mtime)
        × IsCurrent version (get (some mtime) (version mtime) cached).1
  unfolding get
  get-IsCurrent mtime none h = loaded-IsCurrent mtime (version mtime) none refl h
  get-IsCurrent mtime (some (cached_mtime, value)) h = elim (Bool-cases (cached_mtime == mtime)) [
    | inl e ↦ rw e (rw (← (==_iff cached_mtime mtime).0 e) (sym h, h))
    | inr e ↦ rw e (loaded-IsCurrent mtime (version mtime) (some (cached_mtime, value)) refl h)
  ]

  reachable-IsCurrent : (cached : Cached T) → IsReachable version cached → IsCurrent version cached
  unfolding get
  reachable-IsCurrent _ start = tt
  reachable-IsCurrent _ (missing loaded cached h) = reachable-IsCurrent cached h
  reachable-IsCurrent _ (handshake mtime cached h) =
      (get-IsCurrent mtime cached (reachable-IsCurrent cached h)).1

  -- In every run of the server in which what loading gives depends on the watched file's modification
  -- time alone, a handshake gets what loading gives now, although most handshakes load nothing.
  pub get-reachable :
      (cached : Cached T) (mtime : ℕ)
      → IsReachable version cached
      → (get (some mtime) (version mtime) cached).0 ≡ version mtime
  get-reachable cached mtime h = (get-IsCurrent mtime cached (reachable-IsCurrent cached h)).0
