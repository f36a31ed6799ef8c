-- ===== src/Acme/Order/Kept.antt =====
-- What an order and a renewal leave in the files.
use zaphyl.Prelude.{◌≡◌, inl, inr, refl, Bool, true, ok, err, arith, Bool-cases}
use zaphyl.Challenge.{ChallengeStore}
use zaphyl.Tls.Provider.{CertFiles}
use zaphyl.Acme.Order.{Authority, Ordered, run_order, Writes, write_pair, obtain, both_exist, start}

write_pair-both :
    (writes : Writes) (files : CertFiles) (ordered : Ordered)
    → (write_pair writes files ordered).0 ≡ ok tt
    → both_exist (write_pair writes files ordered).1.1 ≡ true
write_pair-both writes files (err e, store) done = absurd (ground (arith, done))
write_pair-both writes files (ok (cert_pem, key_pem), store) done = elim (Bool-cases writes.cert) [
  | inl c ↦ elim (Bool-cases writes.key) [
    | inl k ↦ rw (c, k) refl
    | inr k ↦ absurd (ground (arith, rw (c, k) at done))
  ]
  | inr c ↦ absurd (ground (arith, rw c at done))
]

start-both :
    (made : Bool) (ca : Authority) (writes : Writes) (store : ChallengeStore) (files : CertFiles)
    → (start made ca writes (store, files)).0 ≡ ok tt
    → both_exist (start made ca writes (store, files)).1.1 ≡ true
unfolding start obtain
start-both made ca writes store files done = elim (Bool-cases made) [
  | inl m ↦ elim (Bool-cases (both_exist files)) [
    | inl b ↦ rw (m, b) b
    | inr b ↦ rw (m, b) (write_pair-both writes files (run_order ca store) (rw (m, b) at done))
  ]
  | inr m ↦ absurd (ground (arith, rw m at done))
]

-- Starting with both files there asks the authority for nothing and leaves them as they are, and a
-- start that succeeds leaves both files there.
pub start_lem :
    (made : Bool) (ca : Authority) (writes : Writes) (store : ChallengeStore) (files : CertFiles)
    → (both_exist files ≡ true → (start made ca writes (store, files)).1 ≡ (store, files))
      × (((start made ca writes (store, files)).0 ≡ ok tt)
          → both_exist (start made ca writes (store, files)).1.1 ≡ true)
unfolding start
start_lem made ca writes store files = (
  λ b. elim (Bool-cases made) [ inl m ↦ rw (m, b) refl | inr m ↦ rw m refl ],
  start-both made ca writes store files,
)
