-- ===== src/Start/Main/Answers.antt =====
-- That the challenges of the order that a start places are answered by the front it has started.
use zaphyl.Prelude.{◌≡◌, Option, List, ok}
use zaphyl.Str.{Str}
use zaphyl.Challenge
use zaphyl.Challenge.{ChallengeStore}
use zaphyl.Config.Types.{Config}
use zaphyl.Acme.{Authorization, authorize}
use zaphyl.Start.Machine.{Machine}

-- An order that is written has authorized all that it asks for, and leaves the store as it was then.
AuthorizedTo : List (Option Authorization) → ChallengeStore → ChallengeStore → Type 0
AuthorizedTo results from_ store =
    ((authorize results from_).0 ≡ ok tt) × ((authorize results from_).1 ≡ store)
