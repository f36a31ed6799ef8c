-- ===== src/Acme/Renewed.antt =====
-- When a certificate is renewed.
use zaphyl.Prelude.{ℕ, ◌+◌, ◌<◌, ◌≡◌, ◌↔◌, refl, true, some, arith, leb, Bool-cases, inl, inr}
use zaphyl.Acme.{pos, negsuc, saturating_sub, needs_renewal}

-- A certificate that ends at or after the epoch is renewed exactly if it ends within the window from
-- now; one that ended before the epoch is always renewed, although its distance from now saturates.
pub needs_renewal_lem :
    (now renew_before_secs end : ℕ)
    → ((needs_renewal (some (pos end)) now renew_before_secs ≡ true)
        ↔ (end < now + renew_before_secs))
      × (needs_renewal (some (negsuc end)) now renew_before_secs ≡ true)
unfolding needs_renewal saturating_sub
needs_renewal_lem now renew_before_secs end = elim (Bool-cases (leb now end)) [
  | inl e ↦ rw e ((λ h. ground arith, λ h. ground arith), refl)
  | inr e ↦ rw e ((λ h. ground arith, λ h. refl), refl)
]
