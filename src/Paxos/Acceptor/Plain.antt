-- ===== src/Paxos/Acceptor/Plain.antt =====
-- What an acceptor writes to its log can be read back.
use lab.Base.{
  ℕ, ◌^◌, ◌<◌, ◌≡◌, refl, sym, subst, ◌⊎◌, inl, inr, Bool, true, false, List, [], ◌∷◌, ◌++◌,
  nat_key, ltb, leb, All, arith, Bool-cases,
}
use lab.Base.Bytes.{Bytes}
use lab.Protocol.Paxos.{Preparearg, Prepareres, Acceptarg, Decidearg}
use lab.Paxos.Acceptor.{
  LogRecord, done, high, prop, Acceptor, acceptor, blank, logread, read_records, start_first,
  log_record, preparereq, acceptreq, commit_wo, decidereq, prop_gt, prop_ge, Event, prepares,
  accepts, decides, commits, step, run,
}
use lab.Paxos.Acceptor.LogText.{IsLine, IsNumber, IsPlain}

-- What the calls bring: numbers of 32 bits, names that are not empty and have no blanks, and values
-- without line ends.
abbrev pub BringsPlain : Event → Type 0
BringsPlain (prepares a r) = IsNumber a.n
BringsPlain (accepts a) = IsNumber a.n × IsLine a.v
BringsPlain (decides a) = (a.instance_no < 2 ^ 32) × IsLine a.v
BringsPlain (commits i v) = (i < 2 ^ 32) × IsLine v

All-snoc :
    (rs : List LogRecord) (r : LogRecord) → All IsPlain rs → IsPlain r → All IsPlain (rs ++ r ∷ [])
All-snoc [] r h k = (k, tt)
All-snoc (x ∷ rs) r (here, h) k = (here, All-snoc rs r h k)

-- The log is as it was, or `r` was appended to it.
abbrev Appended : LogRecord → List LogRecord → List LogRecord → Type 0
Appended r old l = (l ≡ old) ⊎ (l ≡ old ++ r ∷ [])

Appended-Plain :
    (r : LogRecord) (old l : List LogRecord)
    → Appended r old l
    → IsPlain r
    → All IsPlain old
    → All IsPlain l
Appended-Plain r old l (inl e) k h = subst (All IsPlain) (sym e) h
Appended-Plain r old l (inr e) k h = subst (All IsPlain) (sym e) (All-snoc old r h k)

commit_wo_log : (i : ℕ) (v : Bytes) (s : Acceptor) → Appended (done i v) s.l (commit_wo i v s).l
unfolding commit_wo log_record
commit_wo_log i v s = elim (Bool-cases (ltb s.instance_h i)) [
  | inr old ↦ inl (rw old refl)
  | inl new ↦ inr (rw new refl)
]

preparereq_log :
    (a : Preparearg) (r : Prepareres) (s : Acceptor)
    → Appended (high a.n) s.l (preparereq a r s).2.l
unfolding preparereq log_record
preparereq_log a r s = elim (Bool-cases (leb a.instance_no s.instance_h)) [
  | inl old ↦ inl (rw old refl)
  | inr new ↦ elim (Bool-cases (prop_gt a.n s.n_h)) [
    | inr lower ↦ inl (rw (new, lower) refl)
    | inl higher ↦ inr (rw (new, higher) refl)
  ]
]

acceptreq_log : (a : Acceptarg) (s : Acceptor) → Appended (prop a.n a.v) s.l (acceptreq a s).1.l
unfolding acceptreq log_record
acceptreq_log a s = elim (Bool-cases (prop_ge a.n s.n_h)) [
  | inr lower ↦ inl (rw lower refl)
  | inl taken ↦ inr (rw taken refl)
]

decidereq_log :
    (a : Decidearg) (s : Acceptor) → Appended (done a.instance_no a.v) s.l (decidereq a s).1.l
unfolding decidereq
decidereq_log a s = elim (Bool-cases (leb a.instance_no s.instance_h)) [
  | inl old ↦ inl (rw old refl)
  | inr new ↦ rw new (commit_wo_log a.instance_no a.v s)
]

step-Plain : (e : Event) (s : Acceptor) → BringsPlain e → All IsPlain s.l → All IsPlain (step e s).l
unfolding step
step-Plain (prepares a r) s k h = Appended-Plain (high a.n) s.l _ (preparereq_log a r s) k h
step-Plain (accepts a) s k h = Appended-Plain (prop a.n a.v) s.l _ (acceptreq_log a s) k h
step-Plain (decides a) s k h = Appended-Plain (done a.instance_no a.v) s.l _ (decidereq_log a s) k h
step-Plain (commits i v) s k h = Appended-Plain (done i v) s.l _ (commit_wo_log i v s) k h

run-Plain :
    (es : List Event) (s : Acceptor)
    → All BringsPlain es
    → All IsPlain s.l
    → All IsPlain (run es s).l
unfolding run
run-Plain [] s k h = h
run-Plain (e ∷ es) s (k, ks) h = run-Plain es (step e s) ks (step-Plain e s k h)

acceptor-Plain :
    (cfg first : Bool) (me value : Bytes)
    → IsLine value
    → All IsPlain (acceptor cfg first me value []).l
unfolding acceptor start_first logread read_records blank log_record
acceptor-Plain cfg true me value h = ((omega arith, h), tt)
acceptor-Plain cfg false me value h = tt

-- Every record in the log of an acceptor that was first started on an empty one can be read back.
pub log-Plain :
    (cfg first : Bool) (me value : Bytes) (es : List Event)
    → IsLine value
    → All BringsPlain es
    → All IsPlain (run es (acceptor cfg first me value [])).l
log-Plain cfg first me value es h k =
    run-Plain es (acceptor cfg first me value []) k (acceptor-Plain cfg first me value h)
