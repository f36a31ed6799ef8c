-- ===== src/Start/Bound/Ends.antt =====
-- That the wait for the front ends.
use zaphyl.Prelude.{
  ==_iff, ltb-false→le, ◌==◌, ℕ, zero, suc, ◌+◌, ◌*◌, ◌<◌, ◌≤◌, ◌≡◌, refl, true, false, some, ltb,
  arith, inl, inr, Bool-cases,
}
use zaphyl.Config.Types.{SocketAddr}
use zaphyl.Start.Bound.{
  Attempts, Waited, bound, given_up, probe_of, three_seconds, twenty_milliseconds, wait_from,
  wait_bound,
}

-- How the wait may end: with the first attempt that connects, or after attempts that all fail.
abbrev pub IsEnd : Attempts → SocketAddr → Waited → Type 0
IsEnd attempts probe (bound i) =
    (attempts.connects probe i ≡ true) × ((j : ℕ) → j < i → attempts.connects probe j ≡ false)
IsEnd attempts probe (given_up i) = (j : ℕ) → j ≤ i → attempts.connects probe j ≡ false

module _ (attempts : Attempts) (probe : SocketAddr) where
  FailBefore : ℕ → Type 0
  FailBefore i = (j : ℕ) → j < i → attempts.connects probe j ≡ false

  fail_next : (i : ℕ) → FailBefore i → attempts.connects probe i ≡ false → FailBefore (i + 1)
  unfolding FailBefore
  fail_next i before fails j h = elim (Bool-cases (j == i)) [
    | inl e ↦ rw ((==_iff j i).0 e) fails
    | inr e ↦ before j (ground (arith, e))
  ]

  EndsFrom : ℕ → ℕ → ℕ → Type 0
  EndsFrom fuel i elapsed =
      (r : Waited) × (wait_from attempts probe fuel i elapsed ≡ some r) × IsEnd attempts probe r

  -- One attempt: the rest has to end if it fails early.
  one_attempt :
      (n i elapsed : ℕ)
      → FailBefore i
      → (elapsed + attempts.takes i ≤ three_seconds
          → FailBefore (i + 1)
          → EndsFrom n
              (i + 1)
              (elapsed + attempts.takes i + (twenty_milliseconds + attempts.oversleeps i)))
      → EndsFrom (suc n) i elapsed
  unfolding wait_from FailBefore EndsFrom
  one_attempt n i elapsed before rest = elim (Bool-cases (attempts.connects probe i)) [
    | inl e ↦ (bound i, rw e refl, (e, before))
    | inr e ↦ elim (Bool-cases (ltb three_seconds (elapsed + attempts.takes i))) [
      | inl late ↦ (given_up i, rw (e, late) refl, λ j le. fail_next i before e j (omega arith))
      | inr early ↦
          let (r, ends, is_end) =
            rest (ltb-false→le three_seconds (elapsed + attempts.takes i) early)
              (fail_next i before e) in
          (r, rw (e, early) ends, is_end)
    ]
  ]

  wait_from-ends :
      (n i elapsed : ℕ)
      → three_seconds < elapsed + twenty_milliseconds * n
      → FailBefore i
      → EndsFrom (suc n) i elapsed
  unfolding EndsFrom
  wait_from-ends zero i elapsed h before =
      one_attempt zero i elapsed before (λ early after. absurd (omega arith))
  wait_from-ends (suc n) i elapsed h before = one_attempt (suc n) i elapsed before (λ early after.
      wait_from-ends n (i + 1)
        (elapsed + attempts.takes i + (twenty_milliseconds + attempts.oversleeps i)) (omega arith)
        after)

-- The wait for the front ends, however long the attempts and the sleeps take: 152 attempts are enough
-- for it. It ends with the first attempt that connects; or it is given up, without an error, and then
-- every attempt has failed.
pub wait_bound_lem :
    (attempts : Attempts) (addr : SocketAddr)
    → (r : Waited) × (wait_bound attempts addr ≡ some r) × IsEnd attempts (probe_of addr) r
unfolding wait_bound EndsFrom FailBefore
wait_bound_lem attempts addr =
    wait_from-ends attempts (probe_of addr) 151 0 0 (omega arith) (λ j h. absurd (omega arith))
