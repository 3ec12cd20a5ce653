-- ===== src/Paxos/Acceptor/Answers.antt =====
-- What an acceptor answers after a crash.
use lab.Base.{
  All, some, ◌≡◌, ◌≢◌, sym, ap, ◌∙◌, inl, inr, Bool, true, false, List, [], arith, ◌==◌,
  if◌then◌else◌, nat_key, Bool-cases, leb,
}
use lab.Base.Bytes.{Bytes, str_key}
use lab.Protocol.Paxos.{Prop, Preparearg, Prepareres, Acceptarg}
use lab.Paxos.Acceptor.{Acceptor, acceptor, preparereq, acceptreq, Event, run, prop_gt, prop_ge}
use lab.Paxos.Acceptor.Log.{file_text, start_on}
use lab.Paxos.Acceptor.LogText.{IsLine}
use lab.Paxos.Acceptor.Plain.{BringsPlain}
use lab.Paxos.Acceptor.Restart.{Agrees, Same, restart_restores}

prop_ext : (a b : Prop) → a.n ≡ b.n → a.m ≡ b.m → a ≡ b
prop_ext a b p q = cc (p, q)

gt-Agrees : (a p q : Prop) → a.n ≢ 0 → Agrees p q → prop_gt a p ≡ prop_gt a q
gt-Agrees a p q z (n, inl low) = ground (arith, n, low)
gt-Agrees a p q z (n, inr m) = ap (prop_gt a) (prop_ext p q n m)

ge-Agrees : (a p q : Prop) → a.n ≢ 0 → Agrees p q → prop_ge a p ≡ prop_ge a q
ge-Agrees a p q z (n, inl low) = ground (arith, n, low)
ge-Agrees a p q z (n, inr m) = ap (prop_ge a) (prop_ext p q n m)

-- What a promise reports of the accepted proposal.
abbrev report : Prepareres → Prop → Bytes → Prepareres
report r n_a v_a =
    if n_a.n == 0
    then record r { oldinstance = 0; accept = 1; v_a = [] }
    else record r { oldinstance = 0; accept = 1; v_a = v_a; n_a = n_a }

report-Agrees : (r : Prepareres) (p q : Prop) (v : Bytes) → Agrees p q → report r p v ≡ report r q v
report-Agrees r p q v (n, inl low) =
    let l : (p.n == 0) ≡ true = ground (arith, low) in
    let l' : (q.n == 0) ≡ true = ground (arith, n, low) in rw (l, l')
report-Agrees r p q v (n, inr m) = ap (λ z. report r z v) (prop_ext p q n m)

prepare-Same :
    (a : Preparearg) (r : Prepareres) (s t : Acceptor)
    → a.n.n ≢ 0
    → Same s t
    → (preparereq a r s).1 ≡ (preparereq a r t).1
unfolding preparereq
prepare-Same a r s t z h = elim (Bool-cases (leb a.instance_no s.instance_h)) [
  | inl old ↦
      let old' : leb a.instance_no t.instance_h ≡ true = ap (leb a.instance_no) (sym h.3) ∙ old in
      rw (old, old') (ap (λ v. record r { oldinstance = 1; v_a = v }) (h.4 a.instance_no))
  | inr new ↦
      let new' : leb a.instance_no t.instance_h ≡ false = ap (leb a.instance_no) (sym h.3) ∙ new in
      elim (Bool-cases (prop_gt a.n s.n_h)) [
        | inr lower ↦
            let lower' : prop_gt a.n t.n_h ≡ false =
              sym (gt-Agrees a.n s.n_h t.n_h z h.0) ∙ lower in
            rw (new, new', lower, lower')
        | inl higher ↦
            let higher' : prop_gt a.n t.n_h ≡ true =
              sym (gt-Agrees a.n s.n_h t.n_h z h.0) ∙ higher in
            rw (new, new', higher, higher')
              (report-Agrees r s.n_a t.n_a s.v_a h.1 ∙ ap (report r t.n_a) h.2)
      ]
]

accept-Same :
    (a : Acceptarg) (s t : Acceptor) → a.n.n ≢ 0 → Same s t → (acceptreq a s).0 ≡ (acceptreq a t).0
unfolding acceptreq
accept-Same a s t z h = ground (arith, ge-Agrees a.n s.n_h t.n_h z h.0)

-- To proposals whose number is not 0, an acceptor that was first started on an empty log, has
-- crashed and is started again on the text of its log file gives the replies that it would have
-- given: to `prepare` the same reply, to `accept` the same status. The numbers in the calls before
-- the crash are of 32 bits, the names are not empty and have no blanks, and the values and the first
-- value have no line ends.
pub restart_answers :
    (cfg first : Bool) (me value : Bytes) (es : List Event) (a : Preparearg) (r : Prepareres)
    (b : Acceptarg)
    → IsLine value
    → All BringsPlain es
    → a.n.n ≢ 0
    → b.n.n ≢ 0
    → let s = run es (acceptor cfg first me value []) in
      (t : Acceptor) × (start_on cfg first me value (file_text s.l) ≡ some t)
      × ((preparereq a r s).1 ≡ (preparereq a r t).1)
      × ((acceptreq b s).0 ≡ (acceptreq b t).0)
restart_answers cfg first me value es a r b h k za zb =
    let (t, e, same) = restart_restores cfg first me value es h k in
    (t, e, prepare-Same a r _ _ za same, accept-Same b _ _ zb same)
