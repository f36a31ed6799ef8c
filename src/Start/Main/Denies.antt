-- ===== src/Start/Main/Denies.antt =====
-- That both listeners of a start keep the access rules of its configuration.
use zaphyl.Prelude.{
  ◌≡◌, refl, sym, ap, ◌∙◌, true, false, not, ◌&&◌, Option, none, some, ok, try-eq-ok, ok_inj,
  some_inj, arith, Bool-cases, inl, inr,
}
use zaphyl.Access.{AccessControl, allows, has_no_rules, parse}
use zaphyl.Router.{Router}
use zaphyl.Plugin.{Plugins}
use zaphyl.Config.Types.{Config, AccessConfig, Http3Config}
use zaphyl.Proxy.Guards.{no_rules-allows, denied, guards}
use zaphyl.Proxy.Filter.{respond_error}
use zaphyl.Proxy.Filter.Phase
use zaphyl.Proxy.Filter.Phase.{Outside, Session, request_filter}
use zaphyl.Http3.Request
use zaphyl.Http3.Request.{Arrival, Front, proxy_request, answer}
use zaphyl.Http3.Serving.{bare}
use zaphyl.Tls.Provider.{CertFiles}
use zaphyl.Start.Listeners.{new, filter_of, front_with, Cache}
use zaphyl.Start.Machine.{Paths, Machine, Running, Http3}
use zaphyl.Start.Main.{access_of, run_with, launch, http3_of}
use zaphyl.Start.Main.Exits.{run_with-Parts}

module _ (o : Outside) (D : Type 0) where
  -- The rules refuse the address.
  refuses :
      (access : AccessControl (o.ip)) (ip : o.ip.IpAddr)
      → allows o.ip access ip ≡ false
      → (not (has_no_rules o.ip access) && not (allows o.ip access ip)) ≡ true
  refuses access ip h = elim (Bool-cases (has_no_rules o.ip access)) [
    | inl none_there ↦ absurd (ground (arith, no_rules-allows o.ip o.show_ip access ip none_there))
    | inr e ↦ rw (e, h) refl
  ]

  request_filter-denies :
      (p : Phase.Proxy o D) (s : Session o) (w : Phase.World D) (ip : o.ip.IpAddr)
      → allows o.ip p.access ip ≡ false
      → s.client_ip ≡ some ip
      → (request_filter o D p s w).0 ≡ ok (some (respond_error 403))
  unfolding request_filter guards denied
  request_filter-denies p s w ip h e = rw e (rw (refuses p.access ip h) refl)

  proxy_request-denies :
      (f : Front o D) (a : Arrival o) (w : Request.World D)
      → allows o.ip f.access a.client_ip ≡ false
      → proxy_request o D f a w ≡ (ok (answer (bare 403)), w)
  unfolding proxy_request
  proxy_request-denies f a w h = rw (refuses f.access a.client_ip h) refl

  http3_of-access :
      (config : Config) (machine : Machine o D) (router : Router) (access : AccessControl (o.ip))
      (cache : Option (Cache D)) (plugins : Option (Plugins (o.wasm)))
      (section_ : Option Http3Config) (tls : Option Paths) (h : Http3 o D)
      → http3_of o D config machine router access cache plugins section_ tls ≡ some h
      → h.front.access ≡ access
  unfolding front_with
  http3_of-access config machine router access cache plugins none tls h e =
      absurd (ground (arith, e))
  http3_of-access config machine router access cache plugins (some http3) none h e =
      absurd (ground (arith, e))
  http3_of-access config machine router access cache plugins (some http3) (some paths) h e =
      ap (λ x. x.front.access) (sym (some_inj _ h e))

  access_of-parsed :
      (section_ : Option AccessConfig) (rules : AccessConfig) (access read : AccessControl (o.ip))
      → section_ ≡ some rules
      → parse o.ip rules.allow rules.deny ≡ ok access
      → access_of o D section_ ≡ ok read
      → access ≡ read
  unfolding access_of
  access_of-parsed section_ rules access read given parsed h =
      ok_inj access read (rw parsed at (rw given at h))

  -- A start behind which both fronts run has read the rules of its configuration, and each of the
  -- fronts refuses an address that the rules do not allow: with 403, before anything is looked up or
  -- sent on, whatever the request is.
  pub launch-denies :
      (machine : Machine o D) (files : CertFiles) (config : Config) (running : Running o D)
      (h : Http3 o D) (rules : AccessConfig) (access : AccessControl (o.ip)) (ip : o.ip.IpAddr)
      → (launch o D machine files (ok config)).ended ≡ ok running
      → running.http3 ≡ some h
      → config.access ≡ some rules
      → parse o.ip rules.allow rules.deny ≡ ok access
      → allows o.ip access ip ≡ false
      → ((s : Session o) (w : Phase.World D)
          → s.client_ip ≡ some ip
          → (request_filter o D (filter_of o D running.server.proxy) s w).0
            ≡ ok (some (respond_error 403)))
        × ((a : Arrival o) (w : Request.World D)
            → a.client_ip ≡ ip
            → proxy_request o D h.front a w ≡ (ok (answer (bare 403)), w))
  unfolding new
  launch-denies machine files config running h rules access ip ended listening section_ parsed
        refused =
      let (tls, _, runs) = try-eq-ok _ (run_with o D config machine) running ended in
      let parts = run_with-Parts o D machine config tls running runs in
      let same =
        access_of-parsed config.access rules access parts.access section_ parsed parts.rules in
      let proxy_access = ap (λ p. p.access) parts.proxy in
      let front_access =
        http3_of-access config machine _ parts.access _ parts.plugins config.http3 parts.tls h
          (sym parts.http3 ∙ listening) in
      (
        λ s w e.
            request_filter-denies (filter_of o D running.server.proxy) s w ip
              (rw (proxy_access, ← same) refused) e,
        λ a w e. proxy_request-denies h.front a w (rw (front_access, ← same, e) refused),
      )
