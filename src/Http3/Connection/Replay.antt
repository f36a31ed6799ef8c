-- ===== src/Http3/Connection/Replay.antt =====
-- That replayed early data has no effect at an upstream but that of safe methods.
use zaphyl.Prelude.{
  ℕ, if◌then◌else◌, not, ◌&&◌, ◌≡◌, refl, Bool, true, false, Option, List, [], ◌∷◌, arith, Result,
  ok, All, inl, inr, Bool-cases,
}
use zaphyl.Str.{Str}
use zaphyl.Proxy.Guards.{no_rules-allows}
use zaphyl.Access.{has_no_rules, allows}
use zaphyl.Router.{Route}
use zaphyl.Proxy.Filter.Phase.{Outside}
use zaphyl.Http3.{is_safe_method}
use zaphyl.Http3.Upload.{Upstreamed}
use zaphyl.Http3.Serving.{bare}
use zaphyl.Http3.Request.{answer, World, Outcome, forward, Arrival, Front, proxy_request}
use zaphyl.Http3.Request.Early.{proxy_request-early, proxy_request-forward}
use zaphyl.Http3.Connection.{
  Message, arrival, Connection, serve, Step, completes, serves, elsewhere, Reach, start, later,
}

module _ (o : Outside) (D : Type 0) (f : Front o D) (client_ip : o.ip.IpAddr) where
  -- The request was sent to an upstream.
  abbrev pub IsForwarded : Result Str Outcome → Type 0
  IsForwarded result =
      (request : Upstreamed) × (route : Route) × (key : Option Str) × (result
        ≡ ok (forward request route key))

  abbrev pub Logged : Type 0
  Logged = (Arrival o × World D) × (Result Str Outcome × World D)

  -- It came as early data, and its method is not safe.
  abbrev pub IsReplayable : Arrival o → Type 0
  IsReplayable a = (a.is_early ≡ true) × (is_safe_method a.request.method ≡ false)

  -- What was sent is of a client that is let in; what may be replayed with an effect is refused by its
  -- status alone, and nothing has changed; and what did not come early came behind the handshake.
  abbrev pub IsReplaySafe : Bool → Logged → Type 0
  IsReplaySafe done entry =
      (IsForwarded entry.1.0 → allows o.ip f.access client_ip ≡ true)
      × (IsReplayable entry.0.0
          → entry.1
            ≡ (ok (answer (bare (if allows o.ip f.access client_ip then 425 else 403))), entry.0.1))
      × (entry.0.0.is_early ≡ false → done ≡ true)

  refused-status :
      ◌≡◌ {A = ℕ}
        (if not (has_no_rules o.ip f.access) && not (allows o.ip f.access client_ip)
          then 403
          else 425)
        (if allows o.ip f.access client_ip then 425 else 403)
  refused-status = elim (Bool-cases (has_no_rules o.ip f.access)) [
    | inl none_there ↦ ground (arith, no_rules-allows o.ip o.show_ip f.access client_ip)
    | inr some_there ↦ ground arith
  ]

  served-IsReplaySafe :
      (m : Message o) (done : Bool) (w : World D)
      → IsReplaySafe done
          ((arrival o client_ip done m, w), proxy_request o D f (arrival o client_ip done m) w)
  served-IsReplaySafe m done w =
      let a = arrival o client_ip done m in
      (
        λ (request, route, key, e).
            let (allowed, safe) = proxy_request-forward o D f a w request route key e in allowed,
        λ (early, unsafe). rw (← refused-status) (proxy_request-early o D f a w early unsafe),
        λ late. elim (Bool-cases done) [ inl h ↦ h | inr h ↦ absurd (ground (arith, late)) ],
      )

  completed-IsReplaySafe :
      (done : Bool) (log : List Logged) → All (IsReplaySafe done) log → All (IsReplaySafe true) log
  completed-IsReplaySafe done [] h = tt
  completed-IsReplaySafe done (entry ∷ log) ((allowed, refused, late), h) =
      ((allowed, refused, λ _. refl), completed-IsReplaySafe done log h)

  Step-IsReplaySafe :
      {c c' : Connection o D}
      → Step o D f client_ip c c'
      → All (IsReplaySafe c.handshake_done) c.log
      → All (IsReplaySafe c'.handshake_done) c'.log
  unfolding serve
  Step-IsReplaySafe {c} completes h = completed-IsReplaySafe c.handshake_done c.log h
  Step-IsReplaySafe {c} (serves m) h = (served-IsReplaySafe m c.handshake_done c.world, h)
  Step-IsReplaySafe (elsewhere w) h = h

  -- However the requests of a connection, the end of its handshake and other connections follow each
  -- other, of every request: if it was sent to an upstream, the access rules let its client in; if it
  -- came as early data and its method is not safe, it was answered by the bare status 425, or 403 where
  -- the rules refuse the client, and left the turns of the targets and the cache as they were, so it
  -- was neither sent on nor given to plugins; and if it did not come as early data, the handshake is
  -- done from the state behind it on.
  pub Reach-IsReplaySafe :
      (flag : Bool) (w : World D) (c : Connection o D)
      → Reach o D f client_ip flag w c
      → All (IsReplaySafe c.handshake_done) c.log
  Reach-IsReplaySafe flag w _ start = tt
  Reach-IsReplaySafe flag w _ (later {c} r step) =
      Step-IsReplaySafe step (Reach-IsReplaySafe flag w c r)
