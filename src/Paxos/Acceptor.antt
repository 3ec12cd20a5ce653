-- ===== src/Paxos/Acceptor.antt =====
-- The acceptor (paxos.cc) and the log that keeps its durable state (log.cc). `l` is the sequence of
-- the records in the log file: `loginstance`, `loghigh` and `logprop` each append one. Log has their
-- text, and what is read from it.
pub mod Log
pub mod LogText
pub mod Plain
pub mod Order
pub mod Restart
pub mod Answers
pub mod Promise
pub mod Decided
mod Tests
use lab.Base.{
  ℕ, ◌+◌, Bool, true, false, ◌&&◌, ◌||◌, not, Option, none, some, List, [], ◌∷◌, ◌++◌, ◌==◌,
  if◌then◌else◌, nat_key, ltb, leb,
}
use lab.Base.Bytes.{Bytes, str_key, str_lt}
use lab.Base.Map.{Map, lookup, insert, has, at, touch}
use lab.Protocol.Paxos.{Prop, Preparearg, Prepareres, Acceptarg, Decidearg}

-- `operator>` and `operator>=` on `prop_t`.
abbrev pub prop_gt : Prop → Prop → Bool
prop_gt a b = ltb b.n a.n || (a.n == b.n && str_lt b.m a.m)

abbrev pub prop_ge : Prop → Prop → Bool
prop_ge a b = ltb b.n a.n || (a.n == b.n && not (str_lt a.m b.m))

-- The lines of the log file, by their first word.
pub data LogRecord : Type 0 where
  done : ℕ → Bytes → LogRecord
  high : Prop → LogRecord
  prop : Prop → Bytes → LogRecord

-- `cfg` says whether there is a layer above, and `paxos_commits` what it was told.
pub record Acceptor : Type 0 where
  pub me : Bytes
  pub cfg : Bool
  pub n_h : Prop
  pub n_a : Prop
  pub v_a : Bytes
  pub instance_h : ℕ
  pub values : Map ℕ Bytes
  pub l : List LogRecord
  pub paxos_commits : List (ℕ × Bytes)

-- One turn of the loop of `log::logread`.
unfoldable pub read_record : LogRecord → Acceptor → Acceptor
read_record (done i v) s = record s {
  values = insert i v s.values;
  instance_h = i;
  v_a = [];
  n_h = record { n = 0; m = s.n_h.m };
  n_a = record { n = 0; m = s.n_a.m };
}
read_record (high p) s = record s { n_h = p }
read_record (prop p v) s = record s { n_a = p; v_a = v }

unfoldable pub read_records : List LogRecord → Acceptor → Acceptor
read_records [] s = s
read_records (r ∷ rs) s = read_records rs (read_record r s)

unfoldable pub logread : Acceptor → Acceptor
logread s = read_records s.l s

-- `loginstance`, `loghigh` and `logprop`, and `restore` of the file.
unfoldable pub log_record : LogRecord → Acceptor → Acceptor
log_record r s = record s { l = s.l ++ r ∷ [] }

unfoldable pub restore : List LogRecord → Acceptor → Acceptor
restore rs s = logread (record s { l = rs })

-- The members before the log is read, where `file` is the log that an earlier run left.
unfoldable pub blank : Bool → Bytes → List LogRecord → Acceptor
blank cfg me file = record {
  me = me;
  cfg = cfg;
  n_h = record { n = 0; m = me };
  n_a = record { n = 0; m = me };
  v_a = [];
  instance_h = 0;
  values = [];
  l = file;
  paxos_commits = [];
}

-- The constructor's entry of the first instance.
unfoldable pub start_first : Bool → Bytes → Acceptor → Acceptor
start_first first value s =
    if s.instance_h == 0 && first
    then record (log_record (done 1 value) s) { values = insert 1 value s.values; instance_h = 1 }
    else s

unfoldable pub acceptor : Bool → Bool → Bytes → Bytes → List LogRecord → Acceptor
acceptor cfg first me value file = start_first first value (logread (blank cfg me file))

pub data Status : Type 0 where
  ok : Status
  err : Status

-- `r` is the reply that the caller hands in, whose fields stay as they are where none is set.
unfoldable pub preparereq : Preparearg → Prepareres → Acceptor → Status × Prepareres × Acceptor
preparereq a r s =
    if leb a.instance_no s.instance_h
    then (
      ok,
      record r { oldinstance = 1; v_a = at a.instance_no [] s.values },
      record s { values = touch a.instance_no [] s.values },
    )
    else if prop_gt a.n s.n_h
    then (
      ok,
      (if s.n_a.n == 0
          then record r { oldinstance = 0; accept = 1; v_a = [] }
          else record r { oldinstance = 0; accept = 1; v_a = s.v_a; n_a = s.n_a }),
      log_record (high a.n) (record s { n_h = a.n }),
    )
    else (ok, record r { oldinstance = 0; accept = 0 }, s)

unfoldable pub acceptreq : Acceptarg → Acceptor → Status × Acceptor
acceptreq a s =
    if prop_ge a.n s.n_h
    then (ok, log_record (prop a.n a.v) (record s { n_a = a.n; v_a = a.v }))
    else (err, s)

unfoldable pub commit_wo : ℕ → Bytes → Acceptor → Acceptor
commit_wo instance_no value s =
    if ltb s.instance_h instance_no
    then record (log_record (done instance_no value) s) {
      values = insert instance_no value s.values;
      instance_h = instance_no;
      n_h = record { n = 0; m = s.me };
      n_a = record { n = 0; m = s.me };
      v_a = [];
      paxos_commits =
          (if s.cfg then s.paxos_commits ++ (instance_no, value) ∷ [] else s.paxos_commits);
    }
    else s

unfoldable pub decidereq : Decidearg → Acceptor → Status × Acceptor
decidereq a s =
    (ok, (if not (leb a.instance_no s.instance_h) then commit_wo a.instance_no a.v s else s))

-- The calls that reach an acceptor, `commits` from the proposer of the same node.
pub data Event : Type 0 where
  prepares : Preparearg → Prepareres → Event
  accepts : Acceptarg → Event
  decides : Decidearg → Event
  commits : ℕ → Bytes → Event

unfoldable pub step : Event → Acceptor → Acceptor
step (prepares a r) s = (preparereq a r s).2
step (accepts a) s = (acceptreq a s).1
step (decides a) s = (decidereq a s).1
step (commits i v) s = commit_wo i v s

unfoldable pub run : List Event → Acceptor → Acceptor
run [] s = s
run (e ∷ es) s = run es (step e s)
