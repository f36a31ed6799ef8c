-- ===== src/Start/Main/Exits.antt =====
-- What a start that goes through has gone through.
use zaphyl.Prelude.{
  ◌≡◌, ◌∙◌, sym, ap, Option, none, some, is_some, Result, ok, err, try-eq-ok, ok_inj, arith,
  Bool-cases, inl, inr,
}
use zaphyl.Str.{Str}
use zaphyl.Access.{AccessControl}
use zaphyl.Config.Types.{Config}
use zaphyl.Plugin.{Plugins}
use zaphyl.Proxy.Building.{build_router}
use zaphyl.Proxy.Filter.Phase.{Outside}
use zaphyl.Start.Listeners.{cache_of, new}
use zaphyl.Start.Machine.{Paths, Machine, Server, Running}
use zaphyl.Start.Main.{
  running_with, plugins_of, or_exit, access_of, with_listener, build_server, http3_of, listeners,
  run_with,
}

or_exit-ok : {A : Type 0} (r : Result Str A) (a : A) → or_exit r ≡ ok a → r ≡ ok a
or_exit-ok (ok b) a h = ap (λ x. ok x) (ok_inj b a h)
or_exit-ok (err e) a h = absurd (ground (arith, h))

module _ (o : Outside) (D : Type 0) (machine : Machine o D) where
  with_listener-ok :
      (tls : Option Paths) (server built : Server o D)
      → with_listener o D machine tls server ≡ ok built
      → server ≡ built
  with_listener-ok none server built h = ok_inj server built h
  with_listener-ok (some paths) server built h = elim (Bool-cases machine.tls_settings) [
    | inl e ↦ ok_inj server built (rw e at h)
    | inr e ↦ absurd (ground (arith, rw e at h))
  ]

  -- What the listeners of a start are made of.
  pub record Parts (config : Config) (running : Running o D) : Type 0 where
    pub tls : Option Paths
    pub access : AccessControl (o.ip)
    pub plugins : Option (Plugins (o.wasm))
    pub rules : access_of o D config.access ≡ ok access
    pub proxy :
        running.server.proxy
        ≡ new o D machine.build_client machine.upstream_ca machine.now config
            (is_some tls)
            (build_router config machine.memory).0
            access
            (cache_of machine.open_dir config)
            plugins
    pub http3 :
        running.http3
        ≡ http3_of o D config machine
            (build_router config machine.memory).0
            access
            (cache_of machine.open_dir config)
            plugins
            config.http3
            tls

  listeners-Parts :
      (config : Config) (tls : Option Paths) (access : AccessControl (o.ip))
      (plugins : Option (Plugins (o.wasm))) (running : Running o D)
      → access_of o D config.access ≡ ok access
      → listeners o D config machine tls (build_router config machine.memory) access plugins
        ≡ ok running
      → Parts config running
  unfolding listeners build_server
  listeners-Parts config tls access plugins running rules h =
      let router = (build_router config machine.memory).0 in
      let cache = cache_of machine.open_dir config in
      let server = build_server o D config machine tls router access cache plugins in
      let (built, is_built, runs) =
        try-eq-ok (or_exit server)
          (λ s. ok (
            running_with o D config machine tls (build_router config machine.memory) access plugins
              s))
          running h in
      let same = ok_inj _ running runs in
      let listening = with_listener-ok tls _ built (or_exit-ok server built is_built) in
      record {
        tls = tls;
        access = access;
        plugins = plugins;
        rules = rules;
        proxy = ap (λ r. r.server.proxy) (sym same) ∙ ap (λ s. s.proxy) (sym listening);
        http3 = ap (λ r. r.http3) (sym same);
      }

  pub run_with-Parts :
      (config : Config) (tls : Option Paths) (running : Running o D)
      → run_with o D config machine tls ≡ ok running
      → Parts config running
  unfolding run_with
  run_with-Parts config tls running h =
      let (access, rules, h₁) = try-eq-ok (access_of o D config.access) _ running h in
      let (plugins, _, h₂) = try-eq-ok (plugins_of o D config) _ running h₁ in
      listeners-Parts config tls access plugins running rules h₂
