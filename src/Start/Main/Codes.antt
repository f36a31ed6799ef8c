-- ===== src/Start/Main/Codes.antt =====
-- The exit codes of the program.
use zaphyl.Prelude.{
  ℕ, ◌≡◌, ◌≢◌, ◌⊎◌, inl, inr, refl, Option, none, some, Result, ok, err, try, arith, sym, ap,
}
use zaphyl.Str.{Str}
use zaphyl.Config.Types.{Config, ConfigError, AccessConfig, TlsConfig, AcmeConfig}
use zaphyl.Access.{parse}
use zaphyl.Proxy.Filter.Phase.{Outside}
use zaphyl.Tls.Provider.{CertFiles}
use zaphyl.Acme.Order.{Obtained, start}
use zaphyl.Start.Machine.{Machine, Paths, Kept}
use zaphyl.Start.Main.{
  or_exit, started, tls_or_acme, resolve_tls, access_of, plugins_of, listeners, run_with, launch,
  launch_at, HttpFront,
}

-- Whatever it fails with is the exit code 1.
FailsWithOne : {A : Type 0} → Result ℕ A → Type 0
FailsWithOne r = (code : ℕ) → r ≡ err code → code ≡ 1

err_inj : {A : Type 0} (c d : ℕ) → ◌≡◌ {A = Result ℕ A} (err c) (err d) → c ≡ d
err_inj {A} c d h = ap (code c) h
  where
    code : ℕ → Result ℕ A → ℕ
    code d (ok a) = d
    code d (err c) = c

ok-FailsWithOne : {A : Type 0} (a : A) → FailsWithOne (ok a)
unfolding FailsWithOne
ok-FailsWithOne a code h = absurd (ground (arith, h))

err-FailsWithOne : (A : Type 0) → FailsWithOne {A = A} (err 1)
unfolding FailsWithOne
err-FailsWithOne A code h = sym (err_inj 1 code h)

try-FailsWithOne :
    {A B : Type 0} (r : Result ℕ A) (k : A → Result ℕ B)
    → FailsWithOne r
    → ((a : A) → FailsWithOne (k a))
    → FailsWithOne (try r k)
unfolding FailsWithOne
try-FailsWithOne (ok a) k first rest code h = rest a code h
try-FailsWithOne (err e) k first rest code h = first code (ap (λ c. err c) (err_inj e code h))

or_exit-FailsWithOne : {E A : Type 0} (r : Result E A) → FailsWithOne (or_exit r)
or_exit-FailsWithOne (ok a) = ok-FailsWithOne a
or_exit-FailsWithOne (err e) = err-FailsWithOne _

module _ (o : Outside) (D : Type 0) (machine : Machine o D) where
  access_of-FailsWithOne : (access : Option AccessConfig) → FailsWithOne (access_of o D access)
  unfolding access_of
  access_of-FailsWithOne none = ok-FailsWithOne _
  access_of-FailsWithOne (some a) = or_exit-FailsWithOne (parse o.ip a.allow a.deny)

  started-FailsWithOne :
      (acme : AcmeConfig) (got : Obtained) → FailsWithOne (started o D acme machine got).0
  started-FailsWithOne acme (err e, kept) = err-FailsWithOne _
  started-FailsWithOne acme (ok done, kept) = ok-FailsWithOne _

  tls_or_acme-FailsWithOne :
      (tls : Option TlsConfig) (acme : Option AcmeConfig) (front : HttpFront o D) (kept : Kept)
      → FailsWithOne (tls_or_acme o D tls acme machine front kept).0
  tls_or_acme-FailsWithOne (some tls) acme front kept = ok-FailsWithOne _
  tls_or_acme-FailsWithOne none none front kept = ok-FailsWithOne _
  tls_or_acme-FailsWithOne none (some acme) front kept =
      started-FailsWithOne acme (start machine.made (machine.ca front) machine.writes kept)

  run_with-FailsWithOne :
      (config : Config) (tls : Option Paths) → FailsWithOne (run_with o D config machine tls)
  unfolding run_with plugins_of listeners
  run_with-FailsWithOne config tls =
      try-FailsWithOne (access_of o D config.access) _ (access_of-FailsWithOne config.access)
        (λ access.
          try-FailsWithOne (plugins_of o D config) _ (or_exit-FailsWithOne _) (λ plugins.
            try-FailsWithOne _ _ (or_exit-FailsWithOne _) (λ server. ok-FailsWithOne _)))

  launch-FailsWithOne :
      (files : CertFiles) (loaded : Result ConfigError Config)
      → FailsWithOne (launch o D machine files loaded).ended
  unfolding resolve_tls
  launch-FailsWithOne files (err e) = err-FailsWithOne _
  launch-FailsWithOne files (ok config) =
      try-FailsWithOne _ (run_with o D config machine)
        (tls_or_acme-FailsWithOne config.tls config.acme _ _) (run_with-FailsWithOne config)

  -- A start that ends the program does so with code 2 if it was given no configuration, and with code 1
  -- for whatever else goes wrong.
  pub launch_at-code :
      (files : CertFiles) (path : Option Str) (code : ℕ)
      → (launch_at o D machine files path).ended ≡ err code
      → ((path ≡ none) × (code ≡ 2)) ⊎ ((path ≢ none) × (code ≡ 1))
  unfolding FailsWithOne
  launch_at-code files none code h = inl (refl, sym (err_inj 2 code h))
  launch_at-code files (some path) code h =
      inr (λ e. ground (arith, e), launch-FailsWithOne files _ code h)
