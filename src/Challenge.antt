-- ===== src/Challenge.antt =====
-- crates/zaphyl-core/src/acme.rs: the store of pending HTTP-01 challenges. The lock is held for the
-- whole of each call.
use zaphyl.Prelude.{
  Bool, ◌||◌, Option, none, some, List, [], ◌∷◌, if◌then◌else◌, and_then, is_empty,
}
use zaphyl.Str.{Str, lit, strip_prefix, contains}
use zaphyl.HashMap
use zaphyl.HashMap.{HashMap}
pub mod Serving

abbrev pub well_known_prefix : Str
well_known_prefix = lit "/.well-known/acme-challenge/"

pub record ChallengeStore : Type 0 where
  pub tokens : HashMap Str

unfoldable pub new : ChallengeStore
new = record { tokens = [] }

unfoldable pub insert : Str → Str → ChallengeStore → ChallengeStore
insert token key_authorization s = record {
  tokens = HashMap.insert token key_authorization s.tokens;
}

pub remove : Str → ChallengeStore → ChallengeStore
remove token s = record { tokens = HashMap.remove token s.tokens }

unfoldable pub response_for : Str → ChallengeStore → Option Str
response_for path s =
    and_then (strip_prefix well_known_prefix path)
      (λ token. if is_empty token || contains b'/' token then none else HashMap.get token s.tokens)
