-- ===== src/Start/Main/Obtains.antt =====
-- That a start without a certificate gets one, since the front it has started first answers the
-- challenges.
use zaphyl.Prelude.{
  ap, ok_inj, ◌≡◌, refl, true, false, Option, none, some, List, ok, err, All, arith,
}
use zaphyl.Str.{Str, lit}
use zaphyl.Challenge
use zaphyl.Challenge.{ChallengeStore}
use zaphyl.Config.Types.{SocketAddr, Config, AcmeConfig}
use zaphyl.Proxy.Forwarding.{Http}
use zaphyl.Proxy.Filter.Phase.{Outside}
use zaphyl.HttpFront.{NonChallenge}
use zaphyl.Tls.Provider.{CertFiles}
use zaphyl.Acme.{Authorization, Registered, authorize}
use zaphyl.Acme.Order.{
  Authority, Polled, Ordered, Writes, Obtained, after_authorized, run_order, write_pair, obtain,
  both_exist, start,
}
use zaphyl.Acme.Order.Validated.{IsFairAuthorization, authorize-ok}
use zaphyl.Start.Front.{http_front}
use zaphyl.Start.Machine.{Machine}
use zaphyl.Start.Main.{started, spawned, launch, resolve_tls, run_with}

-- An authority that accepts the account, takes each challenge as soon as it is answered, and issues.
pub record Issues (http : Http) (behavior : NonChallenge) (ca : Authority) (cert_pem key_pem : Str)
    : Type 0 where
  pub results : List (Option Authorization)
  pub account : ca.account ≡ true
  pub order : ca.new_order ≡ some results
  pub fair : All (IsFairAuthorization http behavior) results
  pub polled : (store : ChallengeStore) → ca.polled store ≡ Polled.ready
  pub finalized : ca.finalized ≡ some key_pem
  pub certificate : ca.certificate ≡ some cert_pem

after_authorized-ready :
    (ca : Authority) (r : Registered) (cert_pem key_pem : Str)
    → ((store : ChallengeStore) → ca.polled store ≡ Polled.ready)
    → ca.finalized ≡ some key_pem
    → ca.certificate ≡ some cert_pem
    → r.0 ≡ ok tt
    → (after_authorized ca r).0 ≡ ok (cert_pem, key_pem)
after_authorized-ready ca (err e, store) cert_pem key_pem polled f c h = absurd (ground (arith, h))
after_authorized-ready ca (ok done, store) cert_pem key_pem polled f c h =
    rw (polled store, f, c) refl

run_order-Issues :
    (http : Http) (behavior : NonChallenge) (ca : Authority) (cert_pem key_pem : Str)
    (store : ChallengeStore)
    → Issues http behavior ca cert_pem key_pem
    → (run_order ca store).0 ≡ ok (cert_pem, key_pem)
unfolding run_order
run_order-Issues http behavior ca cert_pem key_pem store i =
    rw (i.account, i.order)
      (after_authorized-ready ca (authorize i.results store) cert_pem key_pem i.polled i.finalized
        i.certificate (authorize-ok http behavior i.results i.fair store))

-- The pair is written and the start has it.
IsWritten : Writes → Str → Str → Obtained → Type 0
IsWritten writes cert_pem key_pem got =
    (got.0 ≡ ok tt) × (got.1.1 ≡ record { cert = some (writes.at, cert_pem); key = some key_pem })

write_pair-IsWritten :
    (writes : Writes) (files : CertFiles) (ordered : Ordered) (cert_pem key_pem : Str)
    → writes.cert ≡ true
    → writes.key ≡ true
    → ordered.0 ≡ ok (cert_pem, key_pem)
    → IsWritten writes cert_pem key_pem (write_pair writes files ordered)
unfolding IsWritten
write_pair-IsWritten writes files (err e, store) cert_pem key_pem c k h = absurd (ground (arith, h))
write_pair-IsWritten writes files (ok (cert, key), store) cert_pem key_pem c k h =
    let same : ◌≡◌ {A = Str × Str} (cert, key) (cert_pem, key_pem) = ok_inj _ _ h in
    rw (c, k)
      (refl, ap (λ (p : Str × Str). record { cert = some (writes.at, p.0); key = some p.1 }) same)

start-IsWritten :
    (http : Http) (behavior : NonChallenge) (ca : Authority) (writes : Writes)
    (store : ChallengeStore) (files : CertFiles) (cert_pem key_pem : Str)
    → Issues http behavior ca cert_pem key_pem
    → both_exist files ≡ false
    → writes.cert ≡ true
    → writes.key ≡ true
    → IsWritten writes cert_pem key_pem (start true ca writes (store, files))
unfolding start obtain
start-IsWritten http behavior ca writes store files cert_pem key_pem i missing c k = rw missing (
    write_pair-IsWritten writes files (run_order ca store) cert_pem key_pem c k
      (run_order-Issues http behavior ca cert_pem key_pem store i))

module _ (o : Outside) (D : Type 0) where
  started-IsWritten :
      (acme : AcmeConfig) (machine : Machine o D) (got : Obtained) (cert_pem key_pem : Str)
      → IsWritten machine.writes cert_pem key_pem got
      → ((started o D acme machine got).0
          ≡ ok (
              some (
                machine.join acme.cache_dir (lit "cert.pem"),
                machine.join acme.cache_dir (lit "key.pem"),
              )))
        × ((started o D acme machine got).1.1
            ≡ record { cert = some (machine.writes.at, cert_pem); key = some key_pem })
  unfolding IsWritten
  started-IsWritten acme machine (err e, kept) cert_pem key_pem (done, files) =
      absurd (ground (arith, done))
  started-IsWritten acme machine (ok done, kept) cert_pem key_pem (_, files) = (refl, files)

  -- A start that has no certificate of its own, finds no pair in the cache, and can bind the front for
  -- plain HTTP, can make the directory and can write the files, gets a certificate from every authority
  -- that, asking this front, takes a challenge as soon as the front gives its key authorization, and
  -- that is then ready and issues: the new pair stands in the files, and the start goes on with it, as
  -- it does with a configured one.
  pub launch-obtains :
      (machine : Machine o D) (files : CertFiles) (config : Config) (acme : AcmeConfig)
      (http : Http) (front : SocketAddr × NonChallenge) (cert_pem key_pem : Str)
      → config.tls ≡ none
      → config.acme ≡ some acme
      → both_exist files ≡ false
      → http_front config machine.acme_http_addr ≡ some front
      → machine.binds front.0 ≡ true
      → machine.made ≡ true
      → machine.writes.cert ≡ true
      → machine.writes.key ≡ true
      → Issues http front.1 (machine.ca (some front)) cert_pem key_pem
      → ((launch o D machine files (ok config)).kept.1
          ≡ record { cert = some (machine.writes.at, cert_pem); key = some key_pem })
        × ((launch o D machine files (ok config)).ended
            ≡ run_with o D config machine (
                some (
                  machine.join acme.cache_dir (lit "cert.pem"),
                  machine.join acme.cache_dir (lit "key.pem"),
                )))
  unfolding resolve_tls
  launch-obtains machine files config acme http front cert_pem key_pem no_tls has_acme missing
        is_front bound made c k issues =
      let runs : spawned o D machine (http_front config machine.acme_http_addr) ≡ some front =
        rw is_front (rw bound refl) in
      let (paths, pair) =
        started-IsWritten acme machine
          (start true (machine.ca (some front)) machine.writes (Challenge.new, files)) cert_pem
          key_pem
          (start-IsWritten http front.1 (machine.ca (some front)) machine.writes Challenge.new files
            cert_pem key_pem issues missing c k) in
      (rw (runs, no_tls, has_acme, made) pair, rw (runs, no_tls, has_acme, made) (rw paths refl))
