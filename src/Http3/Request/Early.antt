-- ===== src/Http3/Request/Early.antt =====
-- What the HTTP/3 front refuses, and what it never sends on.
use zaphyl.Prelude.{
  if◌then◌else◌, ◌≡◌, refl, true, false, not, ◌&&◌, Option, arith, ok, inl, inr, Bool-cases,
}
use zaphyl.Str.{Str}
use zaphyl.Access.{allows, has_no_rules}
use zaphyl.Router.{Route}
use zaphyl.Proxy.Guards.{no_rules-allows}
use zaphyl.Proxy.Filter.Phase.{Outside}
use zaphyl.Http3.{is_safe_method}
use zaphyl.Http3.Serving.{bare}
use zaphyl.Http3.Upload.{Upstreamed}
use zaphyl.Http3.Request.{World, answer, forward, Arrival, Front, proxy_request}

module _ (o : Outside) (D : Type 0) (f : Front o D) (a : Arrival o) (w : World D) where
  -- Early data with a method that is not safe is answered by 425, or by 403 where the access rules
  -- refuse the client, before anything is looked up: the turns of the targets and the cache are left
  -- as they were, and nothing is sent to an upstream.
  pub proxy_request-early :
      a.is_early ≡ true
      → is_safe_method a.request.method ≡ false
      → proxy_request o D f a w ≡ (
        ok (
            answer (
              bare (
                if not (has_no_rules o.ip f.access) && not (allows o.ip f.access a.client_ip)
                then 403
                else 425))),
        w,
      )
  unfolding proxy_request
  proxy_request-early early unsafe =
      elim (Bool-cases
        (not (has_no_rules o.ip f.access) && not (allows o.ip f.access a.client_ip))) [
          | inl e ↦ rw e refl
          | inr e ↦ rw e (rw early (rw unsafe refl))
        ]

  -- A request that is sent to an upstream comes from a client that the access rules let in, and if it
  -- came as early data, its method is safe.
  pub proxy_request-forward :
      (request : Upstreamed) (route : Route) (cache_key : Option Str)
      → (proxy_request o D f a w).0 ≡ ok (forward request route cache_key)
      → (allows o.ip f.access a.client_ip ≡ true)
        × (a.is_early ≡ true → is_safe_method a.request.method ≡ true)
  unfolding proxy_request
  proxy_request-forward request route cache_key h =
      elim (Bool-cases
        (not (has_no_rules o.ip f.access) && not (allows o.ip f.access a.client_ip))) [
          | inl e ↦ absurd (ground (arith, rw e at h))
          | inr e ↦ elim (Bool-cases (a.is_early && not (is_safe_method a.request.method))) [
            | inl late ↦ absurd (ground (arith, rw late at (rw e at h)))
            | inr fine ↦ (
              ground (arith, no_rules-allows o.ip o.show_ip f.access a.client_ip),
              λ early. ground arith,
            )
          ]
        ]
