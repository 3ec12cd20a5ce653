-- ===== src/Rsm/Calls.antt =====
-- How a request is executed at the members of the view (rsm.cc). The procedures are a parameter:
-- from the arguments and the service's state to the status, the marshalled result and the new
-- state, where one is registered.
use lab.Base.{
  ℕ, ◌+◌, ◌-◌, ◌%◌, ◌^◌, Bool, true, false, ◌&&◌, not, Option, none, some, List, [], ◌∷◌, ◌==◌,
  if◌then◌else◌, nat_key,
}
use lab.Base.Bytes.{Bytes, str_key}
use lab.Protocol.Rsm.{Viewstamp}
use lab.Rpc.Marshal.{take_content, fresh, put_u32, put_string, get_u32}
use lab.Config.{get_curview, ismember}
use lab.Rsm.{Rsm, amiprimary}

pub data ClientStatus : Type 0 where
  ok : ClientStatus
  notprimary : ClientStatus
  busy : ClientStatus

-- `rsm_protocol::ERR`.
abbrev pub err : ℕ
err = 1

-- `x - 1` on `unsigned int`.
abbrev pub pred : ℕ → ℕ
pred x = if x == 0 then 2 ^ 32 - 1 else x - 1

-- The viewstamp of the next request.
abbrev pub next_vs : Viewstamp → Viewstamp
next_vs v = record { vid = v.vid; seqno = (v.seqno + 1) % 2 ^ 32 }

abbrev pub in_turn : {A : Type 0} → Viewstamp → Rsm A → Bool
in_turn vs s = (s.myvs.vid == vs.vid && s.myvs.seqno == pred vs.seqno) && ismember s.cfg.me s.cfg

-- The loop of `client_invoke` over the view. `call` is the call of `invoke` at a node in the world
-- of the other nodes: whether it has a connection and comes back with a status that is not
-- negative.
module _ {W : Type 0} (call : Bytes → W → Bool × W) where
  unfoldable pub forward : Bytes → List Bytes → W → Bool × W
  forward me [] w = (true, w)
  forward me (node ∷ mems) w =
      let skip = forward me mems w in
      let (reached, w') = call node w in
      let rest = forward me mems w' in
      if node == me then skip else if reached then rest else (false, w')

module _ {A : Type 0} (procs : ℕ → Option (Bytes → A → ℕ × Bytes × A)) where
  -- The reply with its status before it; `none` is the assertion that the procedure is there.
  unfoldable pub execute : ℕ → Bytes → A → Option (Bytes × A)
  execute procno req app = elim (procs procno) [
    | none ↦ none
    | some fn ↦
        let (ret, rep, app') = fn req app in some ((put_string rep (put_u32 ret fresh)).body, app')
  ]

  unfoldable pub invoke : ℕ → Viewstamp → Bytes → Rsm A → Option (ℕ × Rsm A)
  invoke proc vs req s =
      if not (in_turn vs s) then some (err, s) else elim (execute proc req s.app) [
        | none ↦ none
        | some (rep, app) ↦ elim (get_u32 (take_content rep)) [
          | none ↦ none
          | some (ret, u) ↦ some (ret, record s { last_myvs = s.myvs; myvs = vs; app = app })
        ]
      ]

  -- `r` is the reply that the caller hands in.
  unfoldable pub client_invoke :
      {W : Type 0}
      → (Bytes → ℕ → Viewstamp → Bytes → W → Bool × W)
      → ℕ
      → Bytes
      → Bytes
      → Rsm A
      → W
      → Option (ClientStatus × Bytes × Rsm A × W)
  client_invoke call procno req r s w =
      let vs = next_vs s.myvs in
      let (mems, cfg) = get_curview s.cfg in
      let s' = record s { cfg = cfg } in
      let (done, w') = forward (λ node. call node procno vs req) s.cfg.me mems w in
      if s.inviewchange
      then some (busy, r, s, w)
      else if not (amiprimary s)
      then some (notprimary, r, s, w)
      else if not done
      then some (busy, r, s', w')
      else elim (execute procno req s.app) [
        | none ↦ none
        | some (rep, app) ↦
            some (ok, rep, record s' { last_myvs = s.myvs; myvs = vs; app = app }, w')
      ]
