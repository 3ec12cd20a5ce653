-- ===== src/Paxos/Acceptor/Restart.antt =====
-- What an acceptor recovers from its log after a crash.
use lab.Base.{
  All, some, ℕ, ◌≤◌, ◌≡◌, refl, sym, ap, subst, ◌∙◌, ◌⊎◌, inl, inr, Bool, true, false, List, [],
  ◌∷◌, ◌++◌, arith, ◌==◌, if◌then◌else◌, nat_key, Bool-cases, ltb, leb,
}
use lab.Base.Bytes.{Bytes, str_key}
use lab.Base.Map.{Map, lookup, insert, at, touch, lookup-insert, lookup-touch}
use lab.Protocol.Paxos.{Prop, Preparearg, Prepareres, Acceptarg, Decidearg}
use lab.Paxos.Acceptor.Log.{file_text, start_on}
use lab.Paxos.Acceptor.LogText.{IsLine, read_text-file_text}
use lab.Paxos.Acceptor.Plain.{BringsPlain, log-Plain}
use lab.Paxos.Acceptor.{
  Acceptor, LogRecord, done, high, prop, read_record, read_records, logread, log_record, blank,
  start_first, acceptor, preparereq, acceptreq, commit_wo, decidereq, Event, prepares, accepts,
  decides, commits, step, run, prop_gt, prop_ge,
}

-- The same number, and the same node unless the number is 0, below every proposal that is made.
abbrev pub Agrees : Prop → Prop → Type 0
Agrees a b = (a.n ≡ b.n) × ((a.n ≡ 0) ⊎ (a.m ≡ b.m))

abbrev pub Same : Acceptor → Acceptor → Type 0
Same s t =
    Agrees s.n_h t.n_h
    × Agrees s.n_a t.n_a
    × (s.v_a ≡ t.v_a)
    × (s.instance_h ≡ t.instance_h)
    × ((i : ℕ) → at i [] s.values ≡ at i [] t.values)

read_records-snoc :
    (rs : List LogRecord) (r : LogRecord) (s : Acceptor)
    → read_records (rs ++ r ∷ []) s ≡ read_record r (read_records rs s)
unfolding read_records
read_records-snoc [] r s = refl
read_records-snoc (q ∷ rs) r s = read_records-snoc rs r (read_record q s)

-- The log of `s`, read back, gives `s`.
abbrev Logged : Bool → Bytes → List LogRecord → Acceptor → Type 0
Logged cfg me file s = Same s (read_records s.l (blank cfg me file))

at-insert :
    (i j : ℕ) (v : Bytes) (m : Map ℕ Bytes)
    → at j [] (insert i v m) ≡ (if i == j then v else at j [] m)
at-insert i j v m = ground (arith, lookup-insert i j v m)

at-touch : (i j : ℕ) (m : Map ℕ Bytes) → at j [] (touch i [] m) ≡ at j [] m
at-touch i j m = ground (arith, lookup-touch i j [] m, ap (λ k. lookup k m))

insert_same :
    (i : ℕ) (v : Bytes) (m m' : Map ℕ Bytes)
    → ((j : ℕ) → at j [] m ≡ at j [] m')
    → (j : ℕ) → at j [] (insert i v m) ≡ at j [] (insert i v m')
insert_same i v m m' h j =
    at-insert i j v m ∙ ap (λ w. if i == j then v else w) (h j) ∙ sym (at-insert i j v m')

log-Same :
    (cfg : Bool) (me : Bytes) (file rs : List LogRecord) (r : LogRecord) (s : Acceptor)
    → Same s (read_record r (read_records rs (blank cfg me file)))
    → Same s (read_records (rs ++ r ∷ []) (blank cfg me file))
log-Same cfg me file rs r s h = subst (Same s) (sym (read_records-snoc rs r (blank cfg me file))) h

commit_wo-Logged :
    (cfg : Bool) (me : Bytes) (file : List LogRecord) (i : ℕ) (v : Bytes) (s : Acceptor)
    → Logged cfg me file s
    → Logged cfg me file (commit_wo i v s)
unfolding commit_wo log_record read_record
commit_wo-Logged cfg me file i v s h = elim (Bool-cases (ltb s.instance_h i)) [
  | inr old ↦ rw old h
  | inl new ↦ rw new (
      log-Same cfg me file s.l (done i v)
        (record s {
          values = insert i v s.values;
          instance_h = i;
          n_h = record { n = 0; m = s.me };
          n_a = record { n = 0; m = s.me };
          v_a = [];
        })
        ((refl, inl refl), (refl, inl refl), refl, refl, insert_same i v s.values _ h.4))
]

preparereq-Logged :
    (cfg : Bool) (me : Bytes) (file : List LogRecord) (a : Preparearg) (r : Prepareres)
    (s : Acceptor)
    → Logged cfg me file s
    → Logged cfg me file (preparereq a r s).2
unfolding preparereq log_record read_record
preparereq-Logged cfg me file a r s h = elim (Bool-cases (leb a.instance_no s.instance_h)) [
  | inl old ↦ rw old (h.0, h.1, h.2, h.3, λ j. at-touch a.instance_no j s.values ∙ h.4 j)
  | inr new ↦ elim (Bool-cases (prop_gt a.n s.n_h)) [
    | inr lower ↦ rw (new, lower) h
    | inl higher ↦
        rw (new, higher)
          (log-Same cfg me file s.l (high a.n) (record s { n_h = a.n })
            ((refl, inr refl), h.1, h.2, h.3, h.4))
  ]
]

acceptreq-Logged :
    (cfg : Bool) (me : Bytes) (file : List LogRecord) (a : Acceptarg) (s : Acceptor)
    → Logged cfg me file s
    → Logged cfg me file (acceptreq a s).1
unfolding acceptreq log_record read_record
acceptreq-Logged cfg me file a s h = elim (Bool-cases (prop_ge a.n s.n_h)) [
  | inr lower ↦ rw lower h
  | inl taken ↦ rw taken (
      log-Same cfg me file s.l (prop a.n a.v) (record s { n_a = a.n; v_a = a.v })
        (h.0, (refl, inr refl), refl, h.3, h.4))
]

decidereq-Logged :
    (cfg : Bool) (me : Bytes) (file : List LogRecord) (a : Decidearg) (s : Acceptor)
    → Logged cfg me file s
    → Logged cfg me file (decidereq a s).1
unfolding decidereq
decidereq-Logged cfg me file a s h = elim (Bool-cases (leb a.instance_no s.instance_h)) [
  | inl old ↦ rw old h
  | inr new ↦ rw new (commit_wo-Logged cfg me file a.instance_no a.v s h)
]

run-Logged :
    (cfg : Bool) (me : Bytes) (file : List LogRecord) (es : List Event) (s : Acceptor)
    → Logged cfg me file s
    → Logged cfg me file (run es s)
unfolding run step
run-Logged cfg me file [] s h = h
run-Logged cfg me file (prepares a r ∷ es) s h =
    run-Logged cfg me file es _ (preparereq-Logged cfg me file a r s h)
run-Logged cfg me file (accepts a ∷ es) s h =
    run-Logged cfg me file es _ (acceptreq-Logged cfg me file a s h)
run-Logged cfg me file (commits i v ∷ es) s h =
    run-Logged cfg me file es _ (commit_wo-Logged cfg me file i v s h)
run-Logged cfg me file (decides a ∷ es) s h =
    run-Logged cfg me file es _ (decidereq-Logged cfg me file a s h)

-- Decisions only rise.
step_rises : (e : Event) (s : Acceptor) → s.instance_h ≤ (step e s).instance_h
unfolding step preparereq acceptreq decidereq commit_wo log_record
step_rises (prepares a r) s = ground arith
step_rises (accepts a) s = ground arith
step_rises (decides a) s = ground arith
step_rises (commits i v) s = ground arith

run_rises : (es : List Event) (s : Acceptor) → s.instance_h ≤ (run es s).instance_h
unfolding run
run_rises [] s = omega arith
run_rises (e ∷ es) s = omega (arith, step_rises e s, run_rises es (step e s))

acceptor-Logged :
    (cfg first : Bool) (me value : Bytes) (file : List LogRecord)
    → Logged cfg me file (acceptor cfg first me value [])
unfolding acceptor start_first logread read_records read_record log_record blank
acceptor-Logged cfg true me value file = ((refl, inl refl), (refl, inl refl), refl, refl, λ j. refl)
acceptor-Logged cfg false me value file =
    ((refl, inl refl), (refl, inl refl), refl, refl, λ j. refl)

acceptor_first : (cfg : Bool) (me value : Bytes) → (acceptor cfg true me value []).instance_h ≡ 1
unfolding acceptor start_first logread read_records blank
acceptor_first cfg me value = refl

start_first_known :
    (first : Bool) (value : Bytes) (s : Acceptor)
    → (first ≡ true → 1 ≤ s.instance_h)
    → start_first first value s ≡ s
unfolding start_first
start_first_known true value s h = let k = h refl in ground arith
start_first_known false value s h = ground arith

-- The same where the log is handed over as its records.
records_restore :
    (cfg first : Bool) (me value : Bytes) (es : List Event)
    → let s = run es (acceptor cfg first me value []) in Same s (acceptor cfg first me value s.l)
unfolding acceptor logread blank
records_restore cfg first me value es =
    let s = run es (acceptor cfg first me value []) in
    let back = run-Logged cfg me s.l es _ (acceptor-Logged cfg first me value s.l) in
    let rise : first ≡ true → 1 ≤ s.instance_h = λ f.
      subst (λ b. 1 ≤ (run es (acceptor cfg b me value [])).instance_h) (sym f)
        (omega
          (arith, run_rises es (acceptor cfg true me value []), acceptor_first cfg me value)) in
    subst (Same s) (sym (start_first_known first value _ (λ f. subst (λ k. 1 ≤ k) back.3 (rise f))))
      back

-- An acceptor that was first started on an empty log, crashes after any sequence of calls and is
-- started again on the text of its log file comes up, and has the promise, the accepted proposal and
-- value, the highest decided instance and the values of the instances that it had before. The node of
-- a proposal number is recovered unless the number is 0. The numbers in the calls are of 32 bits, the
-- names are not empty and have no blanks, and the values and the first value have no line ends.
pub restart_restores :
    (cfg first : Bool) (me value : Bytes) (es : List Event)
    → IsLine value
    → All BringsPlain es
    → let s = run es (acceptor cfg first me value []) in
      (t : Acceptor) × (start_on cfg first me value (file_text s.l) ≡ some t) × Same s t
unfolding start_on
restart_restores cfg first me value es h k =
    let s = run es (acceptor cfg first me value []) in
    let text = read_text-file_text s.l (log-Plain cfg first me value es h k) in
    (
      acceptor cfg first me value s.l,
      rw (text, start_on) refl,
      records_restore cfg first me value es,
    )
