-- ===== src/Acme/Order.antt =====
-- crates/zaphyl/src/acme.rs, `run_order`, `obtain`, `AcmeRunner::start` and a round of `renewal_loop`: an
-- order from the account to the certificate, and the files that it ends in. What the server of the
-- authority answers is an argument, and so is whether a file can be written
-- and what a write that fails leaves.
pub mod Answered
pub mod Kept
pub mod Validated
use zaphyl.Prelude.{
  ℕ, Bool, true, false, not, ◌&&◌, Option, none, some, List, [], ◌∷◌, is_some, if◌then◌else◌,
  Result, ok, err,
}
use zaphyl.Str.{Str, lit}
use zaphyl.Challenge.{ChallengeStore}
use zaphyl.Tls.Provider.{CertFiles, cert_text, write_cert, write_key}
use zaphyl.Acme.{ℤ, Authorization, Registered, authorize, is_due}

-- `poll_ready` ends with a status, or fails.
pub data Polled : Type 0 where
  fails ready other : Polled

-- What the authority answers to the requests of an order.
pub record Authority : Type 0 where
  pub account : Bool
  pub new_order : Option (List (Option Authorization))
  pub polled : ChallengeStore → Polled
  -- The key, made here for the order, and the certificate.
  pub finalized : Option Str
  pub certificate : Option Str

-- The certificate and its key.
abbrev pub Ordered : Type 0
Ordered = Result Str (Str × Str) × ChallengeStore

abbrev pub poll_certificate : Str → Option Str → Result Str (Str × Str)
poll_certificate key_pem none = err (lit "certificate")
poll_certificate key_pem (some cert_pem) = ok (cert_pem, key_pem)

abbrev pub finalize : Option Str → Option Str → Result Str (Str × Str)
finalize none certificate = err (lit "finalize")
finalize (some key_pem) certificate = poll_certificate key_pem certificate

abbrev pub when_ready : Authority → Polled → Result Str (Str × Str)
when_ready ca fails = err (lit "poll")
when_ready ca other = err (lit "order did not become ready")
when_ready ca ready = finalize ca.finalized ca.certificate

abbrev pub after_authorized : Authority → Registered → Ordered
after_authorized ca (err e, store) = (err e, store)
after_authorized ca (ok done, store) = (when_ready ca (ca.polled store), store)

abbrev pub with_order : Authority → Option (List (Option Authorization)) → ChallengeStore → Ordered
with_order ca none store = (err (lit "order"), store)
with_order ca (some results) store = after_authorized ca (authorize results store)

unfoldable pub run_order : Authority → ChallengeStore → Ordered
run_order ca store =
    if ca.account then with_order ca ca.new_order store else (err (lit "account"), store)

-- Whether each of the two files can be written, and when the first is. `fs::write` truncates the file
-- before it writes, so a write that fails may leave anything, which is given too.
pub record Writes : Type 0 where
  pub at : ℕ
  pub cert : Bool
  pub key : Bool
  pub cert_left : Option (ℕ × Str)
  pub key_left : Option Str

abbrev pub Obtained : Type 0
Obtained = Result Str (Unit {0}) × (ChallengeStore × CertFiles)

-- The certificate is written first.
abbrev pub write_pair : Writes → CertFiles → Ordered → Obtained
write_pair writes files (err e, store) = (err e, (store, files))
write_pair writes files (ok (cert_pem, key_pem), store) =
    if writes.cert
    then if writes.key
      then (ok tt, (store, write_key key_pem (write_cert writes.at cert_pem files)))
      else (
        err (lit "write"),
        (store, record (write_cert writes.at cert_pem files) { key = writes.key_left }),
      )
    else (err (lit "write"), (store, record files { cert = writes.cert_left }))

unfoldable pub obtain : Authority → Writes → ChallengeStore × CertFiles → Obtained
unfolding run_order
obtain ca writes (store, files) = write_pair writes files (run_order ca store)

abbrev pub both_exist : CertFiles → Bool
both_exist files = is_some files.cert && is_some files.key

-- Whether the directory can be made comes first.
unfoldable pub start : Bool → Authority → Writes → ChallengeStore × CertFiles → Obtained
unfolding obtain
start made ca writes (store, files) =
    if not made
    then (err (lit "cache directory"), (store, files))
    else if not (both_exist files)
    then obtain ca writes (store, files)
    else (ok tt, (store, files))

-- A failed renewal is only reported, so the result is what it leaves.
unfoldable pub renew :
    (Str → Option ℤ)
    → ℕ
    → Option ℕ
    → Authority
    → Writes
    → ChallengeStore × CertFiles
    → ChallengeStore × CertFiles
unfolding obtain
renew not_after_of renew_before_days clock ca writes (store, files) =
    if is_due not_after_of (cert_text files) clock renew_before_days
    then (obtain ca writes (store, files)).1
    else (store, files)
