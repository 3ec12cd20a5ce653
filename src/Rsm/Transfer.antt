-- ===== src/Rsm/Transfer.antt =====
-- How a node joins, and brings its state up to that of the primary (rsm.cc). The calls to the
-- primary are parameters: what it answers, or none where there is no connection or the status is
-- not OK.
use lab.Base.{
  Bool, true, false, ◌&&◌, not, Option, none, some, List, [], ◌∷◌, ◌==◌, if◌then◌else◌, nat_key,
  length,
}
use lab.Base.Bytes.{Bytes, str_key}
use lab.Protocol.Rsm.{Viewstamp, Transferres}
use lab.Paxos.Acceptor.{LogRecord}
use lab.Config.{get_curview, ismember, restore_view}
use lab.Rsm.{Rsm, StateTransfer, vs_eq}

-- `waiting_for_transfer.erase(it)` of the first entry that is `m`.
unfoldable pub erase_first : Bytes → List Bytes → List Bytes
erase_first m [] = []
erase_first m (n ∷ ns) = let rest = erase_first m ns in if n == m then ns else n ∷ rest

-- `none` is the return of the handler with `rsm_mutex` still held.
pub data Done : Type 0 where
  accepted : Done
  refused_locked : Done

pub data Joined : Type 0 where
  with_log : List LogRecord → Joined
  notprimary : Joined
  err : Joined

module _ {A : Type 0} where
  unfoldable pub transferdonereq : Bytes → Rsm A → Done × Rsm A
  transferdonereq m s =
      let (view, cfg) = get_curview s.cfg in
      if not s.inviewchange
      then (refused_locked, s)
      else if length s.waiting_for_transfer == 0
      then (accepted, record s { cfg = cfg; waiting_for_transfer = erase_first m view })
      else (accepted, record s { waiting_for_transfer = erase_first m s.waiting_for_transfer })

  -- `added` is what `cfg->add` comes to, with the upcalls it leads to.
  unfoldable pub joinreq : (Bytes → Rsm A → Bool × Rsm A) → Bytes → Rsm A → Joined × Rsm A
  joinreq added m s =
      let (r, t) = added m s in
      if ismember m s.cfg
      then (with_log s.cfg.acc.l, s)
      else if not (s.cfg.me == s.primary)
      then (notprimary, s)
      else (if r then with_log t.cfg.acc.l else err, t)

  unfoldable pub join : Option (List LogRecord) → Rsm A → Bool × Rsm A
  join answer s = elim answer [
    | none ↦ (false, s)
    | some file ↦ (true, record s { cfg = restore_view file s.cfg; inviewchange = true })
  ]

  module _ (stf : StateTransfer A) where
    -- The state is sent only where the viewstamps differ; `old` is what the caller hands in.
    unfoldable pub transferreq : Viewstamp → Bytes → Rsm A → Transferres
    transferreq last old s = record {
      state = (if not (vs_eq last s.myvs) then stf.marshal_state s.app else old);
      last = s.myvs;
    }

    -- `none` is a read outside the message.
    unfoldable pub statetransfer : Option Transferres → Rsm A → Option (Bool × Rsm A)
    statetransfer answer s = elim answer [
      | none ↦ some (false, s)
      | some r ↦
          let moved = record s { last_myvs = s.myvs; myvs = r.last } in
          if not (vs_eq s.myvs r.last)
          then elim (stf.unmarshal_state r.state s.app) [
            | none ↦ none
            | some app ↦ some (true, record moved { app = app })
          ]
          else some (true, moved)
    ]

    -- A turn of `recovery` at a member that is not the primary: `answer` is that of `transferreq`,
    -- and `told` says whether `transferdonereq` was answered with OK.
    unfoldable pub recover : Option Transferres → Bool → Rsm A → Option (Rsm A)
    recover answer told s =
        if s.inviewchange && not (s.primary == s.cfg.me)
        then elim (statetransfer answer s) [
          | none ↦ none
          | some (r, t) ↦ some (if r && told then record t { inviewchange = false } else t)
        ]
        else some s

  -- A turn of `recovery` at the primary: it goes on once all others have their state.
  unfoldable pub recover_primary : Rsm A → Rsm A
  recover_primary s =
      if (s.inviewchange && s.primary == s.cfg.me) && length s.waiting_for_transfer == 1
      then record s { waiting_for_transfer = []; inviewchange = false }
      else s
