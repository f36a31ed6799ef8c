-- ===== src/Cache/Policy/Safety.antt =====
-- Exactly which requests and responses the policy lets into the cache.
use zaphyl.Prelude.{
  ℕ, ◌<◌, Bool, true, false, not, ◌||◌, ◌≡◌, ◌≢◌, ◌↔◌, inl, inr, refl, Option, none, some, List, [],
  ◌∷◌, ◌==◌, if◌then◌else◌, and_then, arith, Some, All, any_iff, all_iff, Bool-cases,
}
use zaphyl.Str.{Str, lit, str_eq, trim, split, to_ascii_lowercase, eq_ignore_ascii_case}
use zaphyl.Str.Laws.{str_eq_iff, eq_ignore_ascii_case_iff}
use zaphyl.Cache.Policy.{
  directive_of, has_directive, max_age, vary_cacheable, request_cacheable, positive, response_ttl,
}

-- The header lists the directive.
abbrev pub Lists : Option Str → Str → Type 0
Lists none directive = ⊥
Lists (some value) directive = Some (λ part. directive_of part ≡ directive) (split b',' value)

Some-map {ℓ} :
    {A : Type ℓ} (P Q : A → Type 0) (xs : List A) → ((x : A) → P x → Q x) → Some P xs → Some Q xs
Some-map P Q [] f h = h
Some-map P Q (x ∷ xs) f (inl p) = inl (f x p)
Some-map P Q (x ∷ xs) f (inr h) = inr (Some-map P Q xs f h)

All-map {ℓ} :
    {A : Type ℓ} (P Q : A → Type 0) (xs : List A) → ((x : A) → P x → Q x) → All P xs → All Q xs
All-map P Q [] f h = tt
All-map P Q (x ∷ xs) f (p, h) = (f x p, All-map P Q xs f h)

pub has_directive_iff :
    (cache_control : Option Str) (directive : Str)
    → (has_directive cache_control directive ≡ true) ↔ Lists cache_control directive
unfolding has_directive
has_directive_iff none directive = (λ h. cc, λ h. absurd h)
has_directive_iff (some value) directive =
    let (to, from) = any_iff (λ part. str_eq (directive_of part) directive) (split b',' value) in
    (
      λ h. Some-map _ _ _ (λ part e. (str_eq_iff (directive_of part) directive).0 e) (to h),
      λ h. from (Some-map _ _ _ (λ part e. (str_eq_iff (directive_of part) directive).1 e) h),
    )

not_listed_iff :
    (cache_control : Option Str) (directive : Str)
    → (has_directive cache_control directive ≡ false) ↔ (¬ Lists cache_control directive)
not_listed_iff cache_control directive = (
  λ h l. cc (h, (has_directive_iff cache_control directive).1 l),
  λ n. elim (Bool-cases (has_directive cache_control directive)) [
    | inl h ↦ absurd (n ((has_directive_iff cache_control directive).0 h))
    | inr h ↦ h
  ],
)

-- A request may use the cache exactly if it is a `GET` without credentials that lists neither
-- `no-store` nor `no-cache`.
pub request_cacheable_iff :
    (method : Str) (cache_control : Option Str) (has_authorization : Bool)
    → (request_cacheable method cache_control has_authorization ≡ true) ↔ (
        (method ≡ lit "GET")
        × (has_authorization ≡ false)
        × (¬ Lists cache_control (lit "no-store"))
        × (¬ Lists cache_control (lit "no-cache")))
unfolding request_cacheable
request_cacheable_iff method cc_ auth = (
  λ h. (
    (str_eq_iff method (lit "GET")).0 (ground arith),
    ground arith,
    (not_listed_iff cc_ (lit "no-store")).0 (ground arith),
    (not_listed_iff cc_ (lit "no-cache")).0 (ground arith),
  ),
  λ (get, plain, store, cache).
      rw
        (
          (str_eq_iff method (lit "GET")).1 get,
          plain,
          (not_listed_iff cc_ (lit "no-store")).1 store,
          (not_listed_iff cc_ (lit "no-cache")).1 cache,
        )
        refl,
)

-- The response varies on nothing, or on `Accept-Encoding` alone.
abbrev pub VariesOnEncoding : Option Str → Type 0
VariesOnEncoding none = Unit
VariesOnEncoding (some value) =
    (trim value ≢ lit "*")
    × All (λ token. to_ascii_lowercase (trim token) ≡ lit "accept-encoding")
        (split b',' (trim value))

vary_cacheable_iff : (vary : Option Str) → (vary_cacheable vary ≡ true) ↔ VariesOnEncoding vary
unfolding vary_cacheable to_ascii_lowercase
vary_cacheable_iff none = (λ _. tt, λ _. refl)
vary_cacheable_iff (some value) =
    let (to, from) =
      all_iff (λ token. eq_ignore_ascii_case (trim token) (lit "accept-encoding"))
        (split b',' (trim value)) in
    (
      λ h. (
        (λ e. cc (h, (str_eq_iff (trim value) (lit "*")).1 e)),
        All-map _ _ _
            (λ token e. (eq_ignore_ascii_case_iff (trim token) (lit "accept-encoding")).0 e)
            (to (ground arith)),
      ),
      λ (star, h).
          let listed = from (
            All-map _ _ _
              (λ token e. (eq_ignore_ascii_case_iff (trim token) (lit "accept-encoding")).1 e) h) in
          elim (Bool-cases (str_eq (trim value) (lit "*"))) [
            | inl e ↦ absurd (star ((str_eq_iff (trim value) (lit "*")).0 e))
            | inr e ↦ rw (e, listed) refl
          ],
    )

ttl_to :
    (ok_status cookie vary no_store no_cache private : Bool) (age : Option ℕ) (seconds : ℕ)
    → (if not ok_status || cookie || not vary
        then none
        else if no_store || no_cache || private
        then none
        else positive age)
      ≡ some seconds
    → (ok_status ≡ true)
      × (cookie ≡ false)
      × (vary ≡ true)
      × (no_store ≡ false)
      × (no_cache ≡ false)
      × (private ≡ false)
      × (age ≡ some seconds)
      × (0 < seconds)
unfolding positive
ttl_to ok_status cookie vary no_store no_cache private none seconds h = ground arith
ttl_to ok_status cookie vary no_store no_cache private (some n) seconds h = ground arith

positive-max_age :
    (cache_control : Option Str)
    → and_then cache_control (λ value. positive (max_age value))
      ≡ positive (and_then cache_control max_age)
unfolding positive
positive-max_age none = refl
positive-max_age (some value) = refl

positive-some : (seconds : ℕ) → 0 < seconds → positive (some seconds) ≡ some seconds
unfolding positive
positive-some seconds h = ground arith

-- A response is cached for a number of seconds exactly if its status is 200, it sets no cookie,
-- varies on nothing but `Accept-Encoding`, lists none of `no-store`, `no-cache` and `private`, and
-- its `max-age` is that number and not zero.
pub response_ttl_iff :
    (status : ℕ) (cache_control : Option Str) (has_set_cookie : Bool) (vary : Option Str)
    (seconds : ℕ)
    → (response_ttl status cache_control has_set_cookie vary ≡ some seconds) ↔ (
        (status ≡ 200)
        × (has_set_cookie ≡ false)
        × VariesOnEncoding vary
        × (¬ Lists cache_control (lit "no-store"))
        × (¬ Lists cache_control (lit "no-cache"))
        × (¬ Lists cache_control (lit "private"))
        × (and_then cache_control max_age ≡ some seconds)
        × (0 < seconds))
unfolding response_ttl
response_ttl_iff status cc_ cookie vary seconds = (
  λ h.
      let (ok_status, no_cookie, varies, store, cache, private, age, pos) =
        ttl_to (status == 200) cookie (vary_cacheable vary) (has_directive cc_ (lit "no-store"))
          (has_directive cc_ (lit "no-cache")) (has_directive cc_ (lit "private"))
          (and_then cc_ max_age) seconds (rw (positive-max_age cc_) at h) in
      (
        ground arith,
        no_cookie,
        (vary_cacheable_iff vary).0 varies,
        (not_listed_iff cc_ (lit "no-store")).0 store,
        (not_listed_iff cc_ (lit "no-cache")).0 cache,
        (not_listed_iff cc_ (lit "private")).0 private,
        age,
        pos,
      ),
  λ (ok_status, no_cookie, varies, store, cache, private, age, pos).
      rw
        (
          ok_status,
          no_cookie,
          (vary_cacheable_iff vary).1 varies,
          (not_listed_iff cc_ (lit "no-store")).1 store,
          (not_listed_iff cc_ (lit "no-cache")).1 cache,
          (not_listed_iff cc_ (lit "private")).1 private,
          positive-max_age cc_,
          age,
        )
        (positive-some seconds pos),
)
