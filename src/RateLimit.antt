-- ===== src/RateLimit.antt =====
-- crates/zaphyl-core/src/ratelimit.rs: a fixed-window rate limiter keyed by a text. The mutex is
-- held for the whole of `check`, so a call is one step from the state before to the state after.
use zaphyl.Prelude.{
  ℕ, ◌+◌, ◌-◌, Bool, true, false, ◌&&◌, [], ◌∷◌, List, leb, ltb, if◌then◌else◌, unwrap_or,
}
use zaphyl.Str.{Str, str_eq}
use zaphyl.HashMap
use zaphyl.HashMap.{HashMap}
pub mod Bounds

pub record Window : Type 0 where
  pub start_ms : ℕ
  pub count : ℕ

pub record RateLimiter : Type 0 where
  pub window_ms : ℕ
  pub max : ℕ
  pub windows : HashMap Window

pub new : ℕ → ℕ → RateLimiter
new window_ms max = record { window_ms = window_ms; max = max; windows = [] }

-- The reset of a window that has run out. `saturating_sub` is the subtraction of ℕ.
pub refresh : ℕ → ℕ → Window → Window
refresh window_ms now_ms w =
    if leb window_ms (now_ms - w.start_ms) then record { start_ms = now_ms; count = 0 } else w

-- The test of the count, and its increment.
pub admit : ℕ → Window → Window × Bool
admit max w = if ltb w.count max then (record w { count = w.count + 1 }, true) else (w, false)

-- The body of `check` on the key's window, which is made if it is missing.
pub check_window : RateLimiter → Str → ℕ → Window × Bool
unfolding refresh admit
check_window l key now_ms = admit l.max (
    refresh l.window_ms now_ms
      (unwrap_or (HashMap.get key l.windows) (record { start_ms = now_ms; count = 0 })))

pub check : RateLimiter → Str → ℕ → RateLimiter × Bool
check l key now_ms =
    let (w, within) = check_window l key now_ms in
    (record l { windows = HashMap.insert key w l.windows }, within)

-- How many of a sequence of calls are admitted for one key.
pub admitted : Str → RateLimiter → List (Str × ℕ) → ℕ
admitted k l [] = 0
admitted k l ((key, now_ms) ∷ calls) =
    let (l', within) = check l key now_ms in
    (if within && str_eq key k then 1 else 0) + admitted k l' calls
