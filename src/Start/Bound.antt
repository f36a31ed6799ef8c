-- ===== src/Start/Bound.antt =====
-- crates/zaphyl/src/main.rs, `wait_bound`: trying to connect until it works, or three seconds have passed.
pub mod Ends
use zaphyl.Prelude.{
  ℕ, zero, suc, ◌+◌, Bool, true, Option, none, some, List, [], ◌∷◌, ltb, if◌then◌else◌,
}
use zaphyl.Str.{str_eq}
use zaphyl.Config.Types.{SocketAddr}

-- `0.0.0.0`: the four bytes of an address of the fourth version.
abbrev pub is_unspecified : List ℕ → Bool
is_unspecified ip = str_eq ip (0 ∷ 0 ∷ 0 ∷ 0 ∷ [])

-- The address that is probed.
unfoldable pub probe_of : SocketAddr → SocketAddr
probe_of addr =
    if is_unspecified addr.ip then record { ip = 127 ∷ 0 ∷ 0 ∷ 1 ∷ []; port = addr.port } else addr

-- What happens at each attempt: whether the connection is made, and the nanoseconds that it takes and
-- those that the sleep behind it takes beyond its length.
pub record Attempts : Type 0 where
  pub connects : SocketAddr → ℕ → Bool
  pub takes : ℕ → ℕ
  pub oversleeps : ℕ → ℕ

-- How the wait has ended.
pub data Waited : Type 0 where
  bound : ℕ → Waited
  given_up : ℕ → Waited

abbrev pub three_seconds : ℕ
three_seconds = 3000000000

abbrev pub twenty_milliseconds : ℕ
twenty_milliseconds = 20000000

-- The loop, from an attempt on, at the time since the start.
pub wait_from : Attempts → SocketAddr → ℕ → ℕ → ℕ → Option Waited
wait_from attempts probe zero i elapsed = none
wait_from attempts probe (suc fuel) i elapsed =
    let now = elapsed + attempts.takes i in
    let rest =
      wait_from attempts probe fuel (i + 1) (now + (twenty_milliseconds + attempts.oversleeps i)) in
    if attempts.connects probe i
    then some (bound i)
    else if ltb three_seconds now
    then some (given_up i)
    else rest

-- The attempts that are enough: one at each multiple of twenty milliseconds up to three seconds, and one
-- that is too late.
abbrev pub enough : ℕ
enough = 152

unfoldable pub wait_bound : Attempts → SocketAddr → Option Waited
unfolding wait_from probe_of
wait_bound attempts addr = wait_from attempts (probe_of addr) enough 0 0
