-- ===== src/RateLimit/Bounds.antt =====
-- How many calls a limiter admits: at most `max` for each window, at most twice that in any span of
-- one window's length, exactly `max` of the first calls of a key, and no influence between keys.
use Prim.Native.Nat.{min}
use zaphyl.Prelude.{
  false, ℕ, ◌+◌, ◌-◌, ◌*◌, ◌≤◌, ◌<◌, ◌≡◌, refl, Option, none, some, List, [], ◌∷◌, arith, leb, ltb,
  if◌then◌else◌, length, All, Bool-cases, Option-cases, inl, inr,
}
use zaphyl.Str.{Str, str_eq}
use zaphyl.Str.Laws.{str_eq_refl, str_eq→eq}
use zaphyl.HashMap
use zaphyl.HashMap.Laws.{get-insert}
use zaphyl.RateLimit.{Window, RateLimiter, refresh, admit, check_window, check, admitted}

-- Only the key of the call gets another window.
pub get-check :
    (l : RateLimiter) (key k : Str) (now_ms : ℕ)
    → HashMap.get k (check l key now_ms).0.windows
      ≡ (if str_eq key k then some (check_window l key now_ms).0 else HashMap.get k l.windows)
unfolding check
get-check l key k now_ms = get-insert key k _ l.windows

-- No window of the limiter counts more than `max`.
abbrev pub IsBounded : RateLimiter → Type 0
IsBounded l = (k : Str) (w : Window) → HashMap.get k l.windows ≡ some w → w.count ≤ l.max

check_window-le :
    (l : RateLimiter) (key : Str) (now_ms : ℕ)
    → IsBounded l
    → (check_window l key now_ms).0.count ≤ l.max
unfolding check_window
check_window-le l key now_ms h = elim (Option-cases (HashMap.get key l.windows)) [
  | inl e ↦ rw e (ground arith)
  | inr (w, e) ↦ rw e (ground (arith, h key w e))
]

-- Every check keeps a limiter bounded: a counter never passes `max`.
pub check-IsBounded :
    (l : RateLimiter) (key : Str) (now_ms : ℕ) → IsBounded l → IsBounded (check l key now_ms).0
unfolding check
check-IsBounded l key now_ms h k w e = elim (Bool-cases (str_eq key k)) [
  | inl same ↦ ground (arith, get-check l key k now_ms, check_window-le l key now_ms h)
  | inr other ↦ ground (arith, get-check l key k now_ms, h k w)
]

-- What a key can still be admitted from time `from` on, within one window's length.
abbrev budget : ℕ → ℕ → Option Window → ℕ
budget max from none = max
budget max from (some w) = if leb from w.start_ms then max - w.count else (max - w.count) + max

budget-check :
    (l : RateLimiter) (k : Str) (from now_ms : ℕ)
    → from ≤ now_ms
    → now_ms < from + l.window_ms
    → (if (check_window l k now_ms).1 then 1 else 0)
        + budget l.max from (some (check_window l k now_ms).0)
      ≤ budget l.max from (HashMap.get k l.windows)
unfolding check_window
budget-check l k from now_ms lo hi = elim (Option-cases (HashMap.get k l.windows)) [
  | inl e ↦ rw e (ground arith)
  | inr (w, e) ↦ rw e (ground arith)
]

admitted-le-budget :
    (k : Str) (from : ℕ) (calls : List (Str × ℕ)) (l : RateLimiter)
    → All (λ c. (from ≤ c.1) × (c.1 < from + l.window_ms)) calls
    → admitted k l calls ≤ budget l.max from (HashMap.get k l.windows)
unfolding admitted check
admitted-le-budget k from [] l h = omega arith
admitted-le-budget k from ((key, now_ms) ∷ calls) l ((lo, hi), h) =
    let l' : RateLimiter = (check l key now_ms).0 in
    let rest = admitted-le-budget k from calls l' h in
    elim (Bool-cases (str_eq key k)) [
      | inl same ↦
          let e = str_eq→eq key k same in
          ground
            (arith, rest, get-check l key k now_ms, rw e at (budget-check l key from now_ms lo hi))
      | inr other ↦ ground (arith, rest, get-check l key k now_ms)
    ]

-- In any span of one window's length, whatever came before it and in whatever order its times come,
-- at most twice `max` calls of a key are admitted.
pub admitted-le-twice :
    (k : Str) (from : ℕ) (calls : List (Str × ℕ)) (l : RateLimiter)
    → All (λ c. (from ≤ c.1) × (c.1 < from + l.window_ms)) calls
    → admitted k l calls ≤ 2 * l.max
admitted-le-twice k from calls l h = elim (Option-cases (HashMap.get k l.windows)) [
  | inl e ↦ omega (arith, rw e at (admitted-le-budget k from calls l h))
  | inr (w, e) ↦ ground (arith, rw e at (admitted-le-budget k from calls l h))
]

-- A window that has not run out is used as it is.
check_window-live :
    (l : RateLimiter) (k : Str) (now_ms : ℕ) (w : Window)
    → 0 < l.window_ms
    → HashMap.get k l.windows ≡ some w
    → now_ms < w.start_ms + l.window_ms
    → check_window l k now_ms ≡ admit l.max w
unfolding check_window refresh
check_window-live l k now_ms w pos e hi =
    let open_still : leb l.window_ms (now_ms - w.start_ms) ≡ false = ground arith in
    rw (e, open_still) refl

check_window-fresh :
    (l : RateLimiter) (k : Str) (now_ms : ℕ)
    → HashMap.get k l.windows ≡ none
    → check_window l k now_ms ≡ admit l.max (record { start_ms = now_ms; count = 0 })
unfolding check_window refresh
check_window-fresh l k now_ms e = rw e (elim (Bool-cases (leb l.window_ms (now_ms - now_ms))) [
  | inl a ↦ rw a refl
  | inr b ↦ rw b refl
])

-- What a window that has not run out still admits.
admitted-window :
    (k : Str) (w : Window) (calls : List (Str × ℕ)) (l : RateLimiter)
    → 0 < l.window_ms
    → HashMap.get k l.windows ≡ some w
    → All (λ c. (c.0 ≡ k) × (c.1 < w.start_ms + l.window_ms)) calls
    → admitted k l calls ≡ min (length calls) (l.max - w.count)
unfolding admitted check admit
admitted-window k w [] l pos e h = omega arith
admitted-window k w ((key, now_ms) ∷ calls) l pos e ((same, hi), h) =
    let l' : RateLimiter = (check l k now_ms).0 in
    let step = check_window-live l k now_ms w pos e hi in
    rw (same, str_eq_refl k)
      (elim (Bool-cases (ltb w.count l.max)) [
        | inl room ↦ ground (
          arith,
          step,
          get-check l k k now_ms,
          str_eq_refl k,
          admitted-window k (record w { count = w.count + 1 }) calls l',
        )
        | inr full ↦
            ground
              (arith, step, get-check l k k now_ms, str_eq_refl k, admitted-window k w calls l')
      ])

-- A key that has no window gets exactly its first `max` calls admitted within one window.
pub admitted-fresh :
    (k : Str) (start_ms : ℕ) (calls : List (Str × ℕ)) (l : RateLimiter)
    → HashMap.get k l.windows ≡ none
    → 0 < l.window_ms
    → All (λ c. (c.0 ≡ k) × (c.1 < start_ms + l.window_ms)) calls
    → admitted k l ((k, start_ms) ∷ calls) ≡ min (length calls + 1) l.max
unfolding admitted check admit
admitted-fresh k start_ms calls l e pos h =
    let l' : RateLimiter = (check l k start_ms).0 in
    let step = check_window-fresh l k start_ms e in
    rw (str_eq_refl k) (elim (Bool-cases (ltb 0 l.max)) [
      | inl room ↦ ground (
        arith,
        step,
        get-check l k k start_ms,
        str_eq_refl k,
        admitted-window k (record { start_ms = start_ms; count = 1 }) calls l',
      )
      | inr full ↦ ground (
        arith,
        step,
        get-check l k k start_ms,
        str_eq_refl k,
        admitted-window k (record { start_ms = start_ms; count = 0 }) calls l',
      )
    ])

-- The calls of one key.
abbrev pub only : Str → List (Str × ℕ) → List (Str × ℕ)
only k [] = []
only k ((key, now_ms) ∷ calls) = if str_eq key k then (key, now_ms) ∷ only k calls else only k calls

check_window_congr :
    (l l' : RateLimiter) (k : Str) (now_ms : ℕ)
    → l.window_ms ≡ l'.window_ms
    → l.max ≡ l'.max
    → HashMap.get k l.windows ≡ HashMap.get k l'.windows
    → check_window l k now_ms ≡ check_window l' k now_ms
unfolding check_window
check_window_congr l l' k now_ms p q e = rw (p, q, e) refl

admitted_congr :
    (k : Str) (calls : List (Str × ℕ)) (l l' : RateLimiter)
    → l.window_ms ≡ l'.window_ms
    → l.max ≡ l'.max
    → HashMap.get k l.windows ≡ HashMap.get k l'.windows
    → admitted k l calls ≡ admitted k l' (only k calls)
unfolding admitted check
admitted_congr k [] l l' p q e = refl
admitted_congr k ((key, now_ms) ∷ calls) l l' p q e = elim (Bool-cases (str_eq key k)) [
  | inl same ↦
      let k' = str_eq→eq key k same in
      let step = check_window_congr l l' key now_ms p q (rw k' e) in
      ground (
        arith,
        step,
        get-check l key k now_ms,
        get-check l' key k now_ms,
        admitted_congr k calls (check l key now_ms).0 (check l' key now_ms).0 p q,
      )
  | inr other ↦
      ground (arith, get-check l key k now_ms, admitted_congr k calls (check l key now_ms).0 l' p q)
]

-- What a key is admitted does not depend on the calls of other keys.
pub admitted-only :
    (k : Str) (calls : List (Str × ℕ)) (l : RateLimiter)
    → admitted k l calls ≡ admitted k l (only k calls)
admitted-only k calls l = admitted_congr k calls l l refl refl refl
