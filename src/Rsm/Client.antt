-- ===== src/Rsm/Client.antt =====
-- The client of the replicated state machine (rsm_client.h, rsm_client.cc): how it finds the
-- primary. Its calls are parameters, in the world `W` of the nodes, and no other thread of the
-- client runs during them.
pub mod Failover
mod Tests
use lab.Base.{
  ℕ, zero, suc, ◌+◌, Bool, true, false, not, Option, none, some, List, [], ◌∷◌, ◌++◌, ◌==◌,
  if◌then◌else◌, nat_key,
}
use lab.Base.Bytes.{Bytes, str_key}
use lab.Rsm.Calls.{ClientStatus, ok, notprimary, busy}

-- The connection is the one to the primary, and `nref` counts the calls that use it.
pub record RsmClient : Type 0 where
  pub primary : Bytes
  pub nref : ℕ
  pub known_mems : List Bytes

-- How `primary_failure` ends: with a new primary, by `exit`, by an assertion, or not within the
-- rounds that it was given.
pub data Outcome (A : Type 0) : Type 0 where
  found : A → Outcome A
  exited : Outcome A
  asserted : Outcome A
  unfinished : Outcome A

-- `pop_back` and `back`, where there is one.
unfoldable pub pop_back : List Bytes → Option (List Bytes × Bytes)
pop_back [] = none
pop_back (m ∷ ms) = elim (pop_back ms) [
  | none ↦ some ([], m)
  | some (front, back) ↦ some (m ∷ front, back)
]

-- What the call of `invoke` comes back with: a status and a reply, or any other status.
pub data Answer : Type 0 where
  replied : ClientStatus → Bytes → Answer
  lost : Answer

-- `bind` says whether a node is reached. `members` is the call of that name at a node: whether its
-- status is OK, and the names that reading the reply appends.
module _ {W : Type 0} (bind : Bytes → W → Bool × W)
    (members : Bytes → W → (Bool × List Bytes) × W) where
  unfoldable pub connect : Bytes → RsmClient → W → Option (Bool × RsmClient × W)
  connect new_primary s w =
      let (reached, w') = bind new_primary w in
      if new_primary == s.primary
      then some (true, s, w)
      else if not (s.nref == 0)
      then none
      else some (reached, record s { primary = new_primary }, w')

  unfoldable pub take_primary : RsmClient → W → Option (Bool × RsmClient × W)
  take_primary s w = elim (pop_back s.known_mems) [
    | none ↦ none
    | some (front, back) ↦ connect back (record s { known_mems = front }) w
  ]

  unfoldable pub init_members : Bool → RsmClient → W → Option (Bool × RsmClient × W)
  init_members send_member_rpc s w =
      let (reply, w') = members s.primary w in
      let s' = record s { known_mems = s.known_mems ++ reply.1 } in
      if send_member_rpc
      then (if reply.0 then take_primary s' w' else some (false, s', w'))
      else take_primary s w

  -- The result of `bind` is overwritten by that of `init_members`.
  unfoldable pub try_primary : Bytes → RsmClient → W → Option (Bool × RsmClient × W)
  try_primary new_primary s w = elim (connect new_primary s w) [
    | none ↦ none
    | some (r, s', w') ↦ init_members true s' w'
  ]

  unfoldable pub primary_failure : ℕ → RsmClient → W → Outcome (RsmClient × W)
  primary_failure zero s w = unfinished
  primary_failure (suc rounds) s w = elim (pop_back s.known_mems) [
    | none ↦ exited
    | some (front, back) ↦ elim (try_primary back (record s { known_mems = front }) w) [
      | none ↦ asserted
      | some (r, s', w') ↦
          let rest = primary_failure rounds s' w' in if r then found (s', w') else rest
    ]
  ]

  -- After a failure the loop goes round again, with no reply so far.
  unfoldable pub fail_over : ℕ → RsmClient → W → Outcome (Option Bytes × RsmClient × W)
  fail_over rounds s w = elim (primary_failure rounds s w) [
    | found (s', w') ↦ found (none, s', w')
    | exited ↦ exited
    | asserted ↦ asserted
    | unfinished ↦ unfinished
  ]

  -- What `invoke` makes of an answer: the reply, or `none` where the loop goes round again.
  unfoldable pub answered : ℕ → Answer → RsmClient → W → Outcome (Option Bytes × RsmClient × W)
  answered rounds (replied ok rep) s w = found (some rep, s, w)
  answered rounds (replied busy rep) s w = found (none, s, w)
  answered rounds (replied notprimary rep) s w = elim (init_members true s w) [
    | none ↦ asserted
    | some (r, s', w') ↦
        let next = fail_over rounds s' w' in if r then found (none, s', w') else next
  ]
  answered rounds lost s w = fail_over rounds s w

  -- `call` is the call of `invoke` at a node. `turns` bounds the loop, `rounds` that of
  -- `primary_failure`.
  unfoldable pub invoke :
      (Bytes → W → Answer × W) → ℕ → ℕ → RsmClient → W → Outcome (Bytes × RsmClient × W)
  invoke call rounds zero s w = unfinished
  invoke call rounds (suc turns) s w =
      let (a, w') = call s.primary w in
      elim (answered rounds a s w') [
        | found (some rep, s', w'') ↦ found (rep, s', w'')
        | found (none, s', w'') ↦ invoke call rounds turns s' w''
        | exited ↦ exited
        | asserted ↦ asserted
        | unfinished ↦ unfinished
      ]
