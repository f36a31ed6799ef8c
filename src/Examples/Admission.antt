-- ===== src/Examples/Admission.antt =====
-- A limiter of two calls a second, small access rules, a challenge, and an upload.
use zaphyl.Prelude.{
  ℕ, ◌*◌, ◌≤◌, true, false, ◌≡◌, ◌↔◌, Option, none, some, List, [], ◌∷◌, arith, if◌then◌else◌, ◌==◌,
  ==_iff,
}
use zaphyl.Str.{Str, lit, str_eq}
use zaphyl.RateLimit.{RateLimiter, admitted}
use zaphyl.RateLimit.Bounds.{admitted-le-twice}
use zaphyl.Access.{IpLib, AccessControl, allows}
use zaphyl.Challenge.{ChallengeStore}
use zaphyl.Proxy.{new_ctx}
use zaphyl.Proxy.Guards.{guards, content_length, limit_rate, client_key, guards_lem}
use zaphyl.Proxy.Body.{upload, total, upload_lem}

abbrev two_a_second : RateLimiter
two_a_second = record { window_ms = 1000; max = 2; windows = [] }

abbrev calls : List (Str × ℕ)
calls = (lit "a", 500) ∷ (lit "b", 600) ∷ (lit "a", 1200) ∷ []

admitted-le-twice_example : admitted (lit "a") two_a_second calls ≤ 2 * 2
admitted-le-twice_example =
    admitted-le-twice (lit "a") 500 calls two_a_second
      ((omega arith, omega arith), ((omega arith, omega arith), ((omega arith, omega arith), tt)))

abbrev more : List (Str × ℕ)
more = (lit "a", 200) ∷ (lit "a", 300) ∷ []

-- Addresses are numbers; a network of full length holds one address, any other holds them all.
abbrev numbers : IpLib
numbers = record {
  IpAddr = ℕ;
  IpNet = Option ℕ;
  parse_net = λ s. if str_eq s (lit "all") then some none else none;
  parse_ip = λ s. if str_eq s (lit "seven") then some 7 else none;
  is_ipv4 = λ ip. true;
  net_new = λ ip prefix. some (some ip);
  net_contains = λ net ip. elim net [ none ↦ true | some x ↦ ip == x ];
}

abbrev not_seven : AccessControl numbers
not_seven = record { allow = []; deny = some 7 ∷ [] }

contains_seven :
    (y : ℕ) (net : Option ℕ)
    → some (some 7) ≡ some net
    → (numbers.net_contains net y ≡ true) ↔ (y ≡ 7)
contains_seven y none e = absurd (ground (arith, e))
contains_seven y (some x) e = ground (arith, ==_iff y x)

abbrev store : ChallengeStore
store = record { tokens = (lit "t", lit "t.key") ∷ [] }

guards_lem_example :
    (((guards numbers (λ ip. lit "ip") not_seven (some two_a_second) (some 10) (some 7) 0 []).0
        ≡ none)
      ↔ (((ip : ℕ) → some 7 ≡ some ip → allows numbers not_seven ip ≡ true)
          × ((limit_rate (some two_a_second) (client_key numbers (λ ip. lit "ip") (some 7)) 0).1
              ≡ true)
          × ((max len : ℕ) → some 10 ≡ some max → content_length [] ≡ some len → len ≤ max)))
    × ((ip : ℕ)
        → some 7 ≡ some ip
        → allows numbers not_seven ip ≡ false
        → guards numbers (λ ip. lit "ip") not_seven (some two_a_second) (some 10) (some 7) 0 []
          ≡ (some 403, some two_a_second))
guards_lem_example =
    guards_lem numbers (λ ip. lit "ip") not_seven (some two_a_second) (some 10) (some 7) 0 []

upload_lem_example :
    (total (upload (some 3) ((1 ∷ 2 ∷ []) ∷ (3 ∷ 4 ∷ []) ∷ []) (new_ctx 0)).0 ≤ 3)
    × (((upload (some 3) ((1 ∷ 2 ∷ []) ∷ (3 ∷ 4 ∷ []) ∷ []) (new_ctx 0)).1 ≡ true)
        ↔ (total ((1 ∷ 2 ∷ []) ∷ (3 ∷ 4 ∷ []) ∷ []) ≤ 3))
unfolding total
upload_lem_example = upload_lem 3 0 ((1 ∷ 2 ∷ []) ∷ (3 ∷ 4 ∷ []) ∷ []) (omega arith)
