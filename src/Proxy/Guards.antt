-- ===== src/Proxy/Guards.antt =====
-- crates/zaphyl/src/main.rs, `request_filter`: its first part, which answers a request by an error
-- status, or lets it go on. The client's address is known for internet sockets only; its printed form
-- comes from `std::net`.
use zaphyl.Prelude.{
  ◌∷◌, any, ℕ, ◌^◌, ◌≤◌, ◌≡◌, ◌↔◌, Bool, true, false, not, ◌&&◌, Option, none, some, List, [],
  arith, ltb, and_then, is_some_and, option_map, unwrap_or, if◌then◌else◌, Bool-cases, inl, inr,
  is_empty, refl,
}
use zaphyl.Str.{Str, lit, parse_uint}
use zaphyl.Access.{IpLib, AccessControl, has_no_rules, allows}
use zaphyl.RateLimit.{RateLimiter, check}
use zaphyl.Proxy.{HeaderMap, header_text}

abbrev pub content_length : HeaderMap → Option ℕ
content_length headers =
    and_then (header_text (lit "content-length") headers) (λ value. parse_uint (2 ^ 64) value)

-- A declared length beyond the limit.
unfoldable pub too_long : Option ℕ → Option ℕ → Bool
too_long limit declared = is_some_and limit (λ max. is_some_and declared (λ len. ltb max len))

abbrev pub limit_rate : Option RateLimiter → Str → ℕ → Option RateLimiter × Bool
limit_rate none key now = (none, true)
limit_rate (some limiter) key now =
    let (after, admitted) = check limiter key now in (some after, admitted)

module _ (lib : IpLib) (show_ip : lib.IpAddr → Str) where
  unfoldable pub denied : AccessControl lib → Option lib.IpAddr → Bool
  denied access client =
      not (has_no_rules lib access) && is_some_and client (λ ip. not (allows lib access ip))

  abbrev pub client_key : Option lib.IpAddr → Str
  client_key client = unwrap_or (option_map show_ip client) []

  abbrev pub unless_too_long : Bool → Option RateLimiter × Bool → Option ℕ × Option RateLimiter
  unless_too_long long (limiter, false) = (some 429, limiter)
  unless_too_long true (limiter, true) = (some 413, limiter)
  unless_too_long false (limiter, true) = (none, limiter)

  -- The status that ends the request, if one does, and the limiter after it.
  unfoldable pub guards :
      AccessControl lib
      → Option RateLimiter
      → Option ℕ
      → Option lib.IpAddr
      → ℕ
      → HeaderMap
      → Option ℕ × Option RateLimiter
  guards access limiter limit client now headers =
      if denied access client
      then (some 403, limiter)
      else unless_too_long (too_long limit (content_length headers))
          (limit_rate limiter (client_key client) now)

  none_any :
      (p : lib.IpNet → Bool) (nets : List lib.IpNet) → is_empty nets ≡ true → any p nets ≡ false
  none_any p [] h = refl
  none_any p (x ∷ nets) h = cc

  pub no_rules-allows :
      (access : AccessControl lib) (ip : lib.IpAddr)
      → has_no_rules lib access ≡ true
      → allows lib access ip ≡ true
  unfolding allows has_no_rules
  no_rules-allows access ip h =
      ground (arith, none_any (λ net. lib.net_contains net ip) access.deny)

  some_eq : (x y : lib.IpAddr) → ◌≡◌ {A = Option lib.IpAddr} (some x) (some y) → x ≡ y
  some_eq x y e = ground (arith, e)

  denied-false_iff :
      (access : AccessControl lib) (client : Option lib.IpAddr)
      → (denied access client ≡ false)
        ↔ ((ip : lib.IpAddr) → client ≡ some ip → allows lib access ip ≡ true)
  unfolding denied allows has_no_rules
  denied-false_iff access none = (λ _ ip e. cc, λ _. ground arith)
  denied-false_iff access (some ip) = (
    λ h x e. rw (← some_eq ip x e) (ground (arith, no_rules-allows access ip)),
    λ f. let allowed = f ip refl in ground arith,
  )

  too_long-false_iff :
      (limit declared : Option ℕ)
      → (too_long limit declared ≡ false)
        ↔ ((max len : ℕ) → limit ≡ some max → declared ≡ some len → len ≤ max)
  unfolding too_long
  too_long-false_iff none declared = (λ _ max len e. cc, λ _. refl)
  too_long-false_iff (some max) none = (λ _ max len _ e. cc, λ _. refl)
  too_long-false_iff (some max) (some len) =
      (λ h m l e e'. ground arith, λ f. let le = f max len refl refl in ground arith)

  unless-none_iff :
      (long : Bool) (r : Option RateLimiter × Bool)
      → ((unless_too_long long r).0 ≡ none) ↔ ((r.1 ≡ true) × (long ≡ false))
  unless-none_iff long (l, false) = (λ h. cc, λ f. cc (f.0))
  unless-none_iff true (l, true) = (λ h. cc, λ f. cc (f.1))
  unless-none_iff false (l, true) = (λ h. (refl, refl), λ f. refl)

  -- A request goes on exactly if its address, where it is known, passes the access rules, its client
  -- is within the rate limit, where there is one, and the length it declares, if it declares one, is
  -- within the body limit, where there is one. A request that the access rules refuse is answered by
  -- 403 and leaves the rate limiter as it was.
  pub guards_lem :
      (access : AccessControl lib) (limiter : Option RateLimiter) (limit : Option ℕ)
      (client : Option lib.IpAddr) (now : ℕ) (headers : HeaderMap)
      → (((guards access limiter limit client now headers).0 ≡ none) ↔ (
          ((ip : lib.IpAddr) → client ≡ some ip → allows lib access ip ≡ true)
          × ((limit_rate limiter (client_key client) now).1 ≡ true)
          × ((max len : ℕ) → limit ≡ some max → content_length headers ≡ some len → len ≤ max)))
        × ((ip : lib.IpAddr)
            → client ≡ some ip
            → allows lib access ip ≡ false
            → guards access limiter limit client now headers ≡ (some 403, limiter))
  unfolding guards
  guards_lem access limiter limit client now headers =
      let (free, refused) = denied-false_iff access client in
      let (short, long) = too_long-false_iff limit (content_length headers) in
      elim (Bool-cases (denied access client)) [
        | inl d ↦ rw d ((λ h. cc, λ f. cc (d, refused f.0)), λ ip e no_ip. refl)
        | inr d ↦
            let (admitted, pass) =
              unless-none_iff (too_long limit (content_length headers))
                (limit_rate limiter (client_key client) now) in
            (
              (
                λ h. let (rate, size) = admitted (rw d at h) in (free d, rate, short size),
                λ f. rw d (pass (f.1, long f.2)),
              ),
              λ ip e no_ip. cc (free d ip e, no_ip),
            )
      ]
