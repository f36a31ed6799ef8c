-- ===== src/Access.antt =====
-- crates/zaphyl-core/src/access.rs: allow and deny lists of networks. Addresses and networks are the
-- types of `std::net` and of the crate `ipnet`, which are parameters, with their parsers.
use zaphyl.Prelude.{
  ℕ, Bool, true, false, not, ◌&&◌, ◌||◌, ◌≡◌, ◌↔◌, Option, none, some, List, [], ◌∷◌, any, is_empty,
  if◌then◌else◌, Result, ok, err, try,
}
use zaphyl.Str.{Str}
pub mod Rules

-- What the sources call of `ipnet` and `std::net`.
pub record IpLib : Type 1 where
  pub IpAddr : Type 0
  pub IpNet : Type 0
  pub parse_net : Str → Option IpNet
  pub parse_ip : Str → Option IpAddr
  pub is_ipv4 : IpAddr → Bool
  pub net_new : IpAddr → ℕ → Option IpNet
  pub net_contains : IpNet → IpAddr → Bool

module _ (lib : IpLib) where
  open lib use {IpAddr, IpNet}

  pub record AccessControl : Type 0 where
    pub allow : List IpNet
    pub deny : List IpNet

  unfoldable pub parse_net : Str → Result Str IpNet
  parse_net entry = elim (lib.parse_net entry) [
    | some net ↦ ok net
    | none ↦ elim (lib.parse_ip entry) [
      | some ip ↦ elim (lib.net_new ip (if lib.is_ipv4 ip then 32 else 128)) [
        | some net ↦ ok net
        | none ↦ err entry
      ]
      | none ↦ err entry
    ]
  ]

  -- Collecting into a `Result` stops at the first error.
  unfoldable pub parse_nets : List Str → Result Str (List IpNet)
  parse_nets [] = ok []
  parse_nets (entry ∷ entries) =
      try (parse_net entry) (λ net. try (parse_nets entries) (λ nets. ok (net ∷ nets)))

  unfoldable pub parse : List Str → List Str → Result Str AccessControl
  parse allow deny =
      try (parse_nets allow)
        (λ allow'. try (parse_nets deny) (λ deny'. ok (record { allow = allow'; deny = deny' })))

  unfoldable pub has_no_rules : AccessControl → Bool
  has_no_rules ac = is_empty ac.allow && is_empty ac.deny

  unfoldable pub allows : AccessControl → IpAddr → Bool
  allows ac ip =
      if any (λ net. lib.net_contains net ip) ac.deny
      then false
      else if not (is_empty ac.allow) && not (any (λ net. lib.net_contains net ip) ac.allow)
      then false
      else true
