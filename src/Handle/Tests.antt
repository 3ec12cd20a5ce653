-- ===== src/Handle/Tests.antt =====
-- The theorem on handles at a concrete sequence of events.
use lab.Base.{◌≡◌, some, List, [], ◌∷◌, true, false}
use lab.Base.Bytes.{Bytes}
use lab.Handle.Users.{Event, opens, closes, deletes, Users, run, no_users, IsCounted}
use lab.Handle.Uses.{uses-IsCounted}

abbrev node : Bytes
node = 97 ∷ []

-- Two handles of one node, which is given up between their ends, and a third that is refused.
abbrev events : List Event
events =
    opens false node
    ∷ opens true node
    ∷ opens false node
    ∷ deletes node
    ∷ closes node
    ∷ opens true node
    ∷ closes node
    ∷ opens true node
    ∷ []

uses-IsCounted_example : (t : Users) × (run events no_users ≡ some t) × IsCounted t
uses-IsCounted_example = uses-IsCounted events
