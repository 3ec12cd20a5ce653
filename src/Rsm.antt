-- ===== src/Rsm.antt =====
-- The replicated state machine (rsm.h, rsm.cc): requests get viewstamps at the primary, and every
-- member of the view executes them in this order.
pub mod Transfer
pub mod Client
pub mod Calls
pub mod Primary
pub mod ViewChange
pub mod Replicas
pub mod Agreement
pub mod Recovery
mod Tests
use lab.Base.{
  ℕ, ◌+◌, ◌-◌, ◌%◌, ◌^◌, ◌≡◌, Bool, true, false, ◌&&◌, ◌||◌, not, Option, none, some, List, [], ◌∷◌,
  ◌++◌, ◌==◌, if◌then◌else◌, nat_key, ltb, leb, length,
}
use lab.Base.Bytes.{Bytes, str_key}
use lab.Protocol.Paxos.{Decidearg}
use lab.Protocol.Rsm.{Viewstamp, Transferres, Joinres}
use lab.Rpc.Marshal.{fresh, put_u32, put_string}
use lab.Paxos.Acceptor.{LogRecord}
use lab.Paxos.Proposer.{isamember}
use lab.Config.{Config, get_curview, get_prevview, ismember, decidereq}

-- `rsm_state_transfer` (rsm_state_transfer.h): `unmarshal_state` changes a state, and `none` is a
-- read outside the message. A state that `Fits` is rebuilt in one that is `Ready`.
pub record StateTransfer (A : Type 0) : Type 1 where
  pub marshal_state : A → Bytes
  pub unmarshal_state : Bytes → A → Option A
  pub Fits : A → Type 0
  pub Ready : A → Type 0
  pub rebuilds : (a b : A) → Fits a → Ready b → unmarshal_state (marshal_state a) b ≡ some a

-- The members that are state, with the service that is replicated as `app`.
pub record Rsm (A : Type 0) : Type 0 where
  pub cfg : Config
  pub myvs : Viewstamp
  pub last_myvs : Viewstamp
  pub primary : Bytes
  pub inviewchange : Bool
  pub waiting_for_transfer : List Bytes
  pub app : A

-- `operator==` on viewstamps; `operator!=` is its negation.
abbrev pub vs_eq : Viewstamp → Viewstamp → Bool
vs_eq a b = a.vid == b.vid && a.seqno == b.seqno

-- The constructor, on the state that the configuration finds.
unfoldable pub rsm : {A : Type 0} → Bytes → Config → A → Rsm A
rsm first cfg app = record {
  cfg = cfg;
  myvs = record { vid = 0; seqno = 1 };
  last_myvs = record { vid = cfg.myvid; seqno = 0 };
  primary = first;
  inviewchange = false;
  waiting_for_transfer = [];
  app = app;
}

-- The first of `p` that is in `c`.
unfoldable pub first_in : List Bytes → List Bytes → Option Bytes
first_in [] c = none
first_in (m ∷ p) c = let rest = first_in p c in if isamember m c then some m else rest

-- The assertions are `none`.
unfoldable pub choose : Bytes → List Bytes → List Bytes → Option Bytes
choose primary c p =
    if length c == 0 then none else if isamember primary c then some primary else first_in p c

module _ {A : Type 0} where
  unfoldable pub set_primary : Rsm A → Option (Rsm A)
  set_primary s =
      let (c, cfg) = get_curview s.cfg in
      let (p, cfg') = get_prevview cfg in
      elim (choose s.primary c p) [
        | none ↦ none
        | some m ↦ some (record s { primary = m; cfg = cfg' })
      ]

  unfoldable pub commit_change_wo : Rsm A → Option (Rsm A)
  commit_change_wo s = elim (set_primary s) [
    | none ↦ none
    | some t ↦ some (record t {
      inviewchange = true;
      last_myvs = t.myvs;
      myvs = record { vid = t.cfg.myvid; seqno = t.myvs.seqno };
    })
  ]

  -- `decidereq`, with the upcall of `paxos_commit`; `none` is a failed assertion of `set_primary`.
  unfoldable pub decide_view : Decidearg → Rsm A → Option (Rsm A)
  decide_view d s =
      let t = record s { cfg = decidereq d s.cfg } in
      if not (leb d.instance_no s.cfg.acc.instance_h) then commit_change_wo t else some t

  abbrev pub amiprimary : Rsm A → Bool
  amiprimary s = s.primary == s.cfg.me && not s.inviewchange

  -- The members that a client is told of, with the primary at the end.
  unfoldable pub client_members : Rsm A → List Bytes × Rsm A
  client_members s =
      let (m, cfg) = get_curview s.cfg in (m ++ s.primary ∷ [], record s { cfg = cfg })
