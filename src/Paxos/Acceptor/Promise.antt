-- ===== src/Paxos/Acceptor/Promise.antt =====
-- What an acceptor promises within an instance.
use lab.Base.{◌≡◌, refl, sym, ap, subst, ◌∙◌, true, false, not, List, [], ◌∷◌, arith, nat_key, leb}
use lab.Protocol.Paxos.{Prop, Preparearg, Prepareres, Acceptarg}
use lab.Paxos.Acceptor.{
  Acceptor, log_record, err, preparereq, acceptreq, Event, prepares, accepts, decides, commits,
  step, run, prop_gt, prop_ge,
}
use lab.Paxos.Acceptor.Order.{ge_of_gt, gt_ge_trans, ge_refl, ge_not}

ge_gt_trans : (a b c : Prop) → prop_ge a b ≡ true → prop_gt b c ≡ true → prop_gt a c ≡ true
ge_gt_trans a b c h k = ground (arith, ge_not c a, ge_not a b, gt_ge_trans b c a)

-- The event decides nothing.
abbrev pub Undecided : Event → Type 0
Undecided (decides a) = ⊥
Undecided (commits i v) = ⊥
Undecided e = Unit {0}

abbrev pub AllUndecided : List Event → Type 0
AllUndecided [] = Unit
AllUndecided (e ∷ es) = Undecided e × AllUndecided es

step_keeps :
    (p : Prop) (e : Event) (s : Acceptor)
    → Undecided e
    → prop_ge s.n_h p ≡ true
    → (prop_ge (step e s).n_h p ≡ true) × ((step e s).instance_h ≡ s.instance_h)
unfolding step preparereq acceptreq log_record
step_keeps p (prepares a r) s u h = ground (arith, ge_of_gt a.n p, gt_ge_trans a.n s.n_h p)
step_keeps p (accepts a) s u h = ground arith
step_keeps p (decides a) s u h = absurd u
step_keeps p (commits i v) s u h = absurd u

run_keeps :
    (p : Prop) (es : List Event) (s : Acceptor)
    → AllUndecided es
    → prop_ge s.n_h p ≡ true
    → (prop_ge (run es s).n_h p ≡ true) × ((run es s).instance_h ≡ s.instance_h)
unfolding run
run_keeps p [] s u h = (h, refl)
run_keeps p (e ∷ es) s u h =
    let now = step_keeps p e s u.0 h in
    let later = run_keeps p es (step e s) u.1 now.0 in (later.0, later.1 ∙ now.1)

promised :
    (a : Preparearg) (r : Prepareres) (s : Acceptor)
    → leb a.instance_no s.instance_h ≡ false
    → prop_gt a.n s.n_h ≡ true
    → ((preparereq a r s).1.accept ≡ 1)
      × ((preparereq a r s).2.n_h ≡ a.n)
      × ((preparereq a r s).2.instance_h ≡ s.instance_h)
unfolding preparereq log_record
promised a r s new higher = ground arith

-- Once an acceptor has promised proposal `a.n`, then until an instance is decided it refuses
-- every `accept` of a smaller number, and every `prepare` for a later instance of a number that
-- is not greater, and these change nothing.
pub promise_kept :
    (a : Preparearg) (r : Prepareres) (s : Acceptor) (es : List Event) (b : Preparearg)
    (q : Prepareres) (c : Acceptarg)
    → leb a.instance_no s.instance_h ≡ false
    → prop_gt a.n s.n_h ≡ true
    → AllUndecided es
    → prop_gt a.n c.n ≡ true
    → prop_gt b.n a.n ≡ false
    → leb b.instance_no s.instance_h ≡ false
    → let t = run es (preparereq a r s).2 in
      (acceptreq c t ≡ (err, t)) × ((preparereq b q t).1.accept ≡ 0) × ((preparereq b q t).2 ≡ t)
unfolding acceptreq preparereq
promise_kept a r s es b q c new higher u lower low bnew =
    let t = run es (preparereq a r s).2 in
    let p = promised a r s new higher in
    let start = subst (λ n. prop_ge n a.n ≡ true) (sym p.1) (ge_refl a.n) in
    let k = run_keeps a.n es (preparereq a r s).2 u start in
    let no_accept : prop_ge c.n t.n_h ≡ false =
      ge_not c.n t.n_h ∙ ap not (ge_gt_trans t.n_h a.n c.n k.0 lower) in
    let no_prepare : prop_gt b.n t.n_h ≡ false =
      ground (arith, gt_ge_trans b.n t.n_h a.n, k.0, low) in
    let same : leb b.instance_no t.instance_h ≡ false = ap (leb b.instance_no) (k.1 ∙ p.2) ∙ bnew in
    (rw no_accept, rw (same, no_prepare), rw (same, no_prepare))
