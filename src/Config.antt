-- ===== src/Config.antt =====
-- The views of the replicated service (config.h, config.cc): the members of each view, and how a
-- view is changed by a round of Paxos. A round's calls to other nodes are parameters.
pub mod Text
pub mod Views
pub mod Heartbeats
mod Tests
use lab.Base.{
  ℕ, ◌+◌, ◌-◌, ◌%◌, ◌^◌, Bool, true, false, ◌&&◌, ◌||◌, not, Option, none, some, List, [], ◌∷◌,
  ◌++◌, ◌==◌, if◌then◌else◌, nat_key, leb, ltb,
}
use lab.Base.Bytes.{Bytes, str_key, str_lt}
use lab.Base.Map.{at, touch}
use lab.Protocol.Paxos.{Prop, Preparearg, Prepareres, Acceptarg, Decidearg}
use lab.Paxos.Acceptor
use lab.Paxos.Acceptor.{Acceptor, LogRecord, acceptor, restore, commit_wo}
use lab.Paxos.Proposer
use lab.Paxos.Proposer.{Proposer, Outcome, proposer, isamember, isrunning}

-- `std::isspace` in the C locale.
abbrev pub is_space : ℕ → Bool
is_space c = c == 32 || (leb 9 c && leb c 13)

-- The word that has been read, if any.
abbrev pub word : Bytes → List Bytes
word [] = []
word (c ∷ cs) = (c ∷ cs) ∷ []

-- `while (ist >> m)`, where `w` is the part of a word that has been read.
unfoldable pub words : Bytes → Bytes → List Bytes
words w [] = word w
words w (c ∷ cs) =
    let split = words [] cs in
    let more = words (w ++ c ∷ []) cs in if is_space c then word w ++ split else more

unfoldable pub members : Bytes → List Bytes
members value = words [] value

unfoldable pub value : List Bytes → Bytes
value [] = []
value (m ∷ ms) = (m ++ 32 ∷ []) ++ value ms

-- `deleted` are the handles that `mgr` was told to delete, in order.
pub record Config : Type 0 where
  pub acc : Acceptor
  pub pro : Proposer
  pub myvid : ℕ
  pub me : Bytes
  pub mems : List Bytes
  pub deleted : List Bytes

-- `acc->value` is a read by `operator[]`.
unfoldable pub get_view : ℕ → Config → List Bytes × Config
get_view i s = (
  members (at i [] s.acc.values),
  record s { acc = record s.acc { values = touch i [] s.acc.values } },
)

unfoldable pub reconstruct : Config → Config
reconstruct s =
    if ltb 0 s.acc.instance_h
    then (let (view, s') = get_view s.acc.instance_h (record s { myvid = s.acc.instance_h }) in
        record s' { mems = view })
    else s

-- `file` is the log that an earlier run left, and `n0` what the proposer's number holds at first.
unfoldable pub config : Bytes → Bytes → ℕ → List LogRecord → Config
config first me n0 file = reconstruct (record {
  acc = acceptor true (me == first) me me file;
  pro = proposer me n0;
  myvid = 0;
  me = me;
  mems = [];
  deleted = [];
})

unfoldable pub restore_view : List LogRecord → Config → Config
restore_view file s = reconstruct (record s { acc = restore file s.acc })

-- The loop of `paxos_commit`: who is a member no more.
unfoldable pub gone : Bytes → List Bytes → List Bytes → List Bytes
gone me [] newmem = []
gone me (m ∷ mems) newmem =
    let rest = gone me mems newmem in
    if not (isamember m newmem) && not (me == m) then m ∷ rest else rest

-- Up to the call of `commit_change_wo`, which is the replicated state machine's.
unfoldable pub paxos_commit : ℕ → Bytes → Config → Config
paxos_commit i v s = record s {
  deleted = s.deleted ++ gone s.me s.mems (members v);
  mems = members v;
  myvid = i;
}

-- `acceptor::commit_wo` with its upcall.
unfoldable pub commit : ℕ → Bytes → Config → Config
commit i v s =
    let s' = record s { acc = commit_wo i v s.acc } in
    if ltb s.acc.instance_h i then paxos_commit i v s' else s'

-- `acceptor::decidereq` with its upcall.
unfoldable pub decidereq : Decidearg → Config → Config
decidereq d s = if not (leb d.instance_no s.acc.instance_h) then commit d.instance_no d.v s else s

abbrev pub ismember : Bytes → Config → Bool
ismember m s = isamember m s.mems

unfoldable pub get_curview : Config → List Bytes × Config
get_curview s = get_view s.myvid s

unfoldable pub get_prevview : Config → List Bytes × Config
get_prevview s = get_view ((s.myvid + (2 ^ 32 - 1)) % 2 ^ 32) s

-- The loop of `remove_wo`.
unfoldable pub without : Bytes → List Bytes → List Bytes
without m [] = []
without m (n ∷ ns) = let rest = without m ns in if not (n == m) then n ∷ rest else rest

module _ (ask_prepare : Bytes → Preparearg → Option Prepareres)
    (ask_accept : Bytes → Acceptarg → Bool) (connected : Bytes → Bool) where
  -- `pro->run(myvid+1, mems, v)`, with the commit that an old instance leads to.
  unfoldable pub propose : List Bytes → Config → Outcome × Config
  propose m s =
      let (o, p) =
        Proposer.run ask_prepare ask_accept connected s.acc.n_h ((s.myvid + 1) % 2 ^ 32) s.mems
          (value m) s.pro in
      let s' = record s { pro = p } in
      (o, elim o.commits [ none ↦ s' | some (i, v) ↦ commit i v s' ])

  unfoldable pub add : Bytes → Config → Outcome × Config
  add new_m s = propose (s.mems ++ new_m ∷ []) s

  unfoldable pub remove_wo : Bytes → Config → Outcome × Config
  remove_wo m s = propose (without m s.mems) s

-- The handler of a heartbeat: whether it answers OK, and its view; `none` is the failed assertion.
unfoldable pub heartbeat : ℕ → Config → Option (Bool × ℕ)
heartbeat vid s =
    if vid == s.myvid
    then some (true, s.myvid)
    else if isrunning s.pro
    then (if vid == (s.myvid + 1) % 2 ^ 32 || (vid + 1) % 2 ^ 32 == s.myvid
        then some (true, s.myvid)
        else none)
    else some (false, s.myvid)

-- What the call of a heartbeat returns; without a connection it is a failure.
pub data Beat : Type 0 where
  answered : Beat
  atmostonce_failure : Beat
  oldsrv_failure : Beat
  failure : Beat
  refused : Beat

-- `heartbeat_t`.
pub data Health : Type 0 where
  ok : Health
  viewerr : Health
  unreachable : Health

-- The result, and whether the handle is deleted.
unfoldable pub doheartbeat : Beat → Health × Bool
doheartbeat answered = (ok, false)
doheartbeat atmostonce_failure = (ok, true)
doheartbeat oldsrv_failure = (ok, true)
doheartbeat failure = (unreachable, false)
doheartbeat refused = (viewerr, false)

abbrev pub is_ok : Health → Bool
is_ok ok = true
is_ok h = false

-- The smallest of the members and of `m`.
unfoldable pub smallest : Bytes → List Bytes → Bytes
smallest m [] = m
smallest m (n ∷ ns) =
    let here = smallest m ns in let other = smallest n ns in if str_lt n m then other else here

module _ (call : Bytes → ℕ → Beat) where
  -- The loop over the members: the first that fails, and the handles that are deleted.
  unfoldable pub ping_all : Bytes → ℕ → List Bytes → Option Bytes × List Bytes
  ping_all me vid [] = (none, [])
  ping_all me vid (m ∷ ms) =
      let (failed, lost) = ping_all me vid ms in
      let (health, dropped) = doheartbeat (call m vid) in
      if not (m == me)
      then (if not (is_ok health)
          then (some m, [])
          else (failed, if dropped then m ∷ lost else lost))
      else (failed, lost)

  -- A round of the heartbeater up to `remove_wo`: the node to remove, if any.
  unfoldable pub ping : Config → Option Bytes × Config
  ping s =
      let m = smallest s.me s.mems in
      let (failed, lost) = ping_all s.me s.myvid s.mems in
      let (health, dropped) = doheartbeat (call m s.myvid) in
      if not (isamember s.me s.mems)
      then (none, s)
      else if m == s.me
      then (failed, record s { deleted = s.deleted ++ lost })
      else (
        (if not (is_ok health) then some m else none),
        record s { deleted = (if dropped then s.deleted ++ m ∷ [] else s.deleted) },
      )
