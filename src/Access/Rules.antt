-- ===== src/Access/Rules.antt =====
-- What the rules decide, and which entries are refused.
use zaphyl.Prelude.{
  Bool, true, false, not, ◌&&◌, ◌||◌, ◌≡◌, ◌≢◌, refl, ◌↔◌, ◌⊎◌, inl, inr, Option, none, some, List,
  [], ◌∷◌, any, is_empty, if◌then◌else◌, Result, ok, err, Some, any_iff, arith, Bool-cases,
  Option-cases, is_some, ◌++◌, find,
}
use zaphyl.Str.{Str}
use zaphyl.Access.{IpLib, AccessControl, parse_net, parse_nets, parse, allows}

module _ (lib : IpLib) where
  open lib use {IpAddr, IpNet}

  -- The address is in one of the networks.
  abbrev pub Covers : List IpNet → IpAddr → Type 0
  Covers nets ip = Some (λ net. lib.net_contains net ip ≡ true) nets

  -- A client is let in exactly when no deny rule covers it, and the allow list is empty or covers it.
  pub allows_iff :
      (ac : AccessControl lib) (ip : IpAddr)
      → (allows lib ac ip ≡ true) ↔ ((¬ Covers ac.deny ip) × ((ac.allow ≡ []) ⊎ Covers ac.allow ip))
  unfolding allows
  allows_iff ac ip = elim (Bool-cases (any (λ net. lib.net_contains net ip) ac.deny)) [
    | inl denied ↦ (λ h. cc (rw denied at h), λ g. absurd (g.0 ((any_iff _ ac.deny).0 denied)))
    | inr free ↦ rw free (
      λ h. (λ c. cc (free, (any_iff _ ac.deny).1 c), listed ac.allow h),
      λ g. passed ac.allow g.1,
    )
  ]
    where
      test : List IpNet → Bool
      test nets =
          if not (is_empty nets) && not (any (λ net. lib.net_contains net ip) nets)
          then false
          else true

      listed : (nets : List IpNet) → test nets ≡ true → (nets ≡ []) ⊎ Covers nets ip
      listed [] h = inl refl
      listed (net ∷ nets) h = inr ((any_iff _ (net ∷ nets)).0 (ground arith))

      passed : (nets : List IpNet) → (nets ≡ []) ⊎ Covers nets ip → test nets ≡ true
      passed [] g = refl
      passed (net ∷ nets) (inl e) = ground arith
      passed (net ∷ nets) (inr c) = rw ((any_iff _ (net ∷ nets)).1 c) refl

  -- The entry is a network or a bare address.
  abbrev pub is_entry : Str → Bool
  is_entry entry = is_some (lib.parse_net entry) || is_some (lib.parse_ip entry)

  abbrev pub error_of {ℓ} : {A : Type ℓ} → Result Str A → Option Str
  error_of (ok a) = none
  error_of (err e) = some e

  -- A full prefix length makes a network of any address (`ipnet` refuses only longer ones).
  abbrev pub AcceptsFull : Type 0
  AcceptsFull = (ip : IpAddr) → is_some (lib.net_new ip (if lib.is_ipv4 ip then 32 else 128)) ≡ true

  module _ (full : AcceptsFull) where
    error-parse_net :
        (entry : Str)
        → error_of (parse_net lib entry) ≡ (if is_entry entry then none else some entry)
    unfolding parse_net
    error-parse_net entry = elim (Option-cases (lib.parse_ip entry)) [
      | inl e ↦ rw e (ground arith)
      | inr (ip, e) ↦ rw e (ground (arith, full ip))
    ]

    error-parse_nets :
        (entries : List Str)
        → error_of (parse_nets lib entries) ≡ find (λ entry. not (is_entry entry)) entries
    unfolding parse_nets
    error-parse_nets [] = refl
    error-parse_nets (entry ∷ entries) =
        ground (arith, error-parse_net entry, error-parse_nets entries)

    find-append :
        (xs ys : List Str)
        → find (λ entry. not (is_entry entry)) (xs ++ ys)
          ≡ elim (find (λ entry. not (is_entry entry)) xs) [
            | some x ↦ some x
            | none ↦ find (λ entry. not (is_entry entry)) ys
          ]
    find-append [] ys = refl
    find-append (x ∷ xs) ys = ground (arith, find-append xs ys)

    -- Parsing fails exactly when some entry is neither a network nor an address, and reports the
    -- first such entry, the allow list before the deny list.
    pub error-parse :
        (allow deny : List Str)
        → error_of (parse lib allow deny) ≡ find (λ entry. not (is_entry entry)) (allow ++ deny)
    unfolding parse
    error-parse allow deny =
        ground (arith, error-parse_nets allow, error-parse_nets deny, find-append allow deny)

  -- A bare address in the deny list refuses that address and no other.
  pub allows-bare :
      (entry : Str) (ip x : IpAddr) (ac : AccessControl lib)
      → ((y : IpAddr) (net : IpNet)
          → lib.net_new ip (if lib.is_ipv4 ip then 32 else 128) ≡ some net
          → (lib.net_contains net y ≡ true) ↔ (y ≡ ip))
      → lib.parse_net entry ≡ none
      → lib.parse_ip entry ≡ some ip
      → parse lib [] (entry ∷ []) ≡ ok ac
      → (allows lib ac x ≡ true) ↔ (x ≢ ip)
  unfolding parse parse_nets parse_net allows
  allows-bare entry ip x ac exact no_net is_ip parsed =
      elim (Option-cases (lib.net_new ip (if lib.is_ipv4 ip then 32 else 128))) [
        | inl e ↦ absurd (ground arith)
        | inr (net, e) ↦
            let allow : ac.allow ≡ [] = ground arith in
            let deny : ac.deny ≡ net ∷ [] = ground arith in
            rw (allow, deny)
              (
                λ h same. ground (arith, (exact x net e).1 same),
                λ ne. elim (Bool-cases (lib.net_contains net x)) [
                  | inl hit ↦ absurd (ne ((exact x net e).0 hit))
                  | inr miss ↦ rw miss refl
                ],
              )
      ]
