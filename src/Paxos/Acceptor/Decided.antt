-- ===== src/Paxos/Acceptor/Decided.antt =====
-- What an acceptor says of decided instances.
use lab.Base.{ℕ, ◌≤◌, ◌<◌, ◌≡◌, ap, none, some, List, [], ◌∷◌, arith, nat_key}
use lab.Base.Bytes.{Bytes}
use lab.Base.Map.{lookup, lookup-insert, lookup-touch}
use lab.Protocol.Paxos.{Preparearg, Prepareres, Acceptarg, Decidearg}
use lab.Paxos.Acceptor.{
  Acceptor, log_record, ok, preparereq, acceptreq, commit_wo, decidereq, Event, prepares, accepts,
  decides, commits, step, run,
}

-- Instance `i` is decided with value `v`.
abbrev pub Decided : ℕ → Bytes → Acceptor → Type 0
Decided i v s = (i ≤ s.instance_h) × (lookup i s.values ≡ some v)

commit_wo-Decided :
    (i : ℕ) (v : Bytes) (j : ℕ) (w : Bytes) (s : Acceptor)
    → Decided i v s
    → Decided i v (commit_wo j w s)
unfolding commit_wo log_record
commit_wo-Decided i v j w s h = ground (arith, lookup-insert j i w s.values)

step-Decided :
    (i : ℕ) (v : Bytes) (e : Event) (s : Acceptor) → Decided i v s → Decided i v (step e s)
unfolding step preparereq acceptreq decidereq log_record
step-Decided i v (prepares a r) s h =
    ground (arith, lookup-touch a.instance_no i [] s.values, ap (λ k. lookup k s.values))
step-Decided i v (accepts a) s h = ground arith
step-Decided i v (decides a) s h = ground (arith, commit_wo-Decided i v a.instance_no a.v s)
step-Decided i v (commits j w) s h = commit_wo-Decided i v j w s h

run-Decided :
    (i : ℕ) (v : Bytes) (es : List Event) (s : Acceptor) → Decided i v s → Decided i v (run es s)
unfolding run
run-Decided i v [] s h = h
run-Decided i v (e ∷ es) s h = run-Decided i v es (step e s) (step-Decided i v e s h)

decidereq-Decided :
    (d : Decidearg) (s : Acceptor)
    → s.instance_h < d.instance_no
    → Decided d.instance_no d.v (decidereq d s).1
unfolding decidereq commit_wo log_record
decidereq-Decided d s h = ground (arith, lookup-insert d.instance_no d.instance_no d.v s.values)

Decided-answer :
    (i : ℕ) (v : Bytes) (a : Preparearg) (r : Prepareres) (s : Acceptor)
    → a.instance_no ≡ i
    → Decided i v s
    → ((preparereq a r s).1.oldinstance ≡ 1) × ((preparereq a r s).1.v_a ≡ v)
unfolding preparereq
Decided-answer i v a r s e h = ground (arith, ap (λ k. lookup k s.values) e)

-- A decision for an instance above the highest one is final: whatever calls follow, later
-- decisions for the same instance included, a `prepare` for the instance is answered with the
-- value that was decided first.
pub decision_final :
    (d : Decidearg) (s : Acceptor) (es : List Event) (a : Preparearg) (r : Prepareres)
    → s.instance_h < d.instance_no
    → a.instance_no ≡ d.instance_no
    → let t = run es (decidereq d s).1 in
      ((preparereq a r t).1.oldinstance ≡ 1) × ((preparereq a r t).1.v_a ≡ d.v)
decision_final d s es a r h e =
    Decided-answer d.instance_no d.v a r _ e
      (run-Decided d.instance_no d.v es _ (decidereq-Decided d s h))

-- An instance of which the acceptor has no value, below one that it decides now, is reported to
-- a `prepare` as decided with the empty value.
pub missed_instance :
    (a : Preparearg) (r : Prepareres) (d : Decidearg) (s : Acceptor)
    → s.instance_h < d.instance_no
    → a.instance_no < d.instance_no
    → lookup a.instance_no s.values ≡ none
    → let t = (decidereq d s).1 in
      ((preparereq a r t).1.oldinstance ≡ 1) × ((preparereq a r t).1.v_a ≡ [])
unfolding preparereq decidereq commit_wo log_record
missed_instance a r d s h k miss =
    ground (arith, lookup-insert d.instance_no a.instance_no d.v s.values)

-- A late `accept` for an instance that has just been decided, or for one before it, is taken if
-- its number is not 0, and the `prepare` for a later instance with a greater number is told its
-- value as accepted.
pub late_accept_leaks :
    (d : Decidearg) (c : Acceptarg) (a : Preparearg) (r : Prepareres) (s : Acceptor)
    → s.instance_h < d.instance_no
    → c.instance_no ≤ d.instance_no
    → d.instance_no < a.instance_no
    → 0 < c.n.n
    → c.n.n < a.n.n
    → let t = (decidereq d s).1 in
      let u = (acceptreq c t).1 in
      ((acceptreq c t).0 ≡ ok)
      × ((preparereq a r u).1.accept ≡ 1)
      × ((preparereq a r u).1.n_a ≡ c.n)
      × ((preparereq a r u).1.v_a ≡ c.v)
unfolding preparereq decidereq commit_wo acceptreq log_record
late_accept_leaks d c a r s h old new p q = ground arith
