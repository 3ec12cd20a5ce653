-- ===== src/Rsm/Recovery.antt =====
-- How a member gets the state of the primary, and how a view change ends.
use lab.Base.{
  ◌≡◌, refl, sym, ap, ◌∙◌, inl, inr, true, false, some, List, [], ◌∷◌, arith, ◌==◌, if◌then◌else◌,
  nat_key, length, Bool-cases, List-cases,
}
use lab.Base.Bytes.{Bytes, str_key, str_eq_iff}
use lab.Base.Map.{beq_self}
use lab.Paxos.Proposer.{isamember}
use lab.Config.{get_curview, get_view}
use lab.Rsm.{Rsm, StateTransfer, vs_eq}
use lab.Rsm.Primary.{current}
use lab.Rsm.Transfer.{
  erase_first, transferdonereq, transferreq, statetransfer, recover, recover_primary,
}

-- A member that is not the primary ends its view change with the answer of the primary `p`: it is
-- then at the primary's viewstamp, in the primary's state if the viewstamps differed, and in its
-- own state if they did not. The primary's state can be marshalled, and the member's state is one
-- that it can be read into.
pub recovered :
    {A : Type 0} (stf : StateTransfer A) (p s : Rsm A) (old : Bytes)
    → stf.Fits p.app
    → stf.Ready s.app
    → s.inviewchange ≡ true
    → (s.primary == s.cfg.me) ≡ false
    → (t : Rsm A) × (recover stf (some (transferreq stf s.myvs old p)) true s ≡ some t)
      × (t.myvs ≡ p.myvs)
      × (t.inviewchange ≡ false)
      × (vs_eq s.myvs p.myvs ≡ false → t.app ≡ p.app)
      × (vs_eq s.myvs p.myvs ≡ true → t.app ≡ s.app)
unfolding recover statetransfer transferreq
recovered stf p s old f y changing backup = elim (Bool-cases (vs_eq s.myvs p.myvs)) [
  | inl same ↦ (
    record s { last_myvs = s.myvs; myvs = p.myvs; inviewchange = false },
    simp (changing, backup, same),
    refl,
    refl,
    λ e. absurd (cc (sym same ∙ e)),
    λ _. refl,
  )
  | inr differ ↦ (
    record s { last_myvs = s.myvs; myvs = p.myvs; app = p.app; inviewchange = false },
    simp (changing, backup, differ, stf.rebuilds p.app s.app f y),
    refl,
    refl,
    λ _. refl,
    λ e. absurd (cc (sym differ ∙ e)),
  )
]

-- No node stands twice in the list.
abbrev pub Distinct : List Bytes → Type 0
Distinct [] = Unit
Distinct (n ∷ ns) = (isamember n ns ≡ false) × Distinct ns

-- Every node of `w` but `me` is one of `ms`.
abbrev pub Others : Bytes → List Bytes → List Bytes → Type 0
Others me w ms = (n : Bytes) → isamember n w ≡ true → (n == me) ≡ false → isamember n ms ≡ true

isamember-erase_first :
    (n m : Bytes) (w : List Bytes)
    → (n == m) ≡ false
    → isamember n (erase_first m w) ≡ isamember n w
unfolding erase_first
isamember-erase_first n m [] h = refl
isamember-erase_first n m (x ∷ w) h =
    ground (arith, str_eq_iff n m, str_eq_iff x m, str_eq_iff x n, isamember-erase_first n m w h)

erase_first-kept :
    (n m : Bytes) (w : List Bytes) → isamember n (erase_first m w) ≡ true → isamember n w ≡ true
unfolding erase_first
erase_first-kept n m [] h = h
erase_first-kept n m (x ∷ w) h = ground (arith, erase_first-kept n m w)

erase_first-Distinct : (m : Bytes) (w : List Bytes) → Distinct w → Distinct (erase_first m w)
unfolding erase_first
erase_first-Distinct m [] d = tt
erase_first-Distinct m (x ∷ w) (a, d) = elim (Bool-cases (x == m)) [
  | inl same ↦ rw same d
  | inr other ↦ rw other (isamember-erase_first x m w other ∙ a, erase_first-Distinct m w d)
]

erase_first_gone : (m : Bytes) (w : List Bytes) → Distinct w → isamember m (erase_first m w) ≡ false
unfolding erase_first
erase_first_gone m [] d = refl
erase_first_gone m (x ∷ w) (a, d) = elim (Bool-cases (x == m)) [
  | inl same ↦ rw same (ap (λ y. isamember y w) (sym ((str_eq_iff x m).0 same)) ∙ a)
  | inr other ↦ rw (other, other) (erase_first_gone m w d)
]

-- The primary `me` waits for the nodes of `w`, and `ms` holds all others of these.
record Waits (me : Bytes) (w ms : List Bytes) : Type 0 where
  distinct : Distinct w
  here : isamember me w ≡ true
  others : Others me w ms
  away : isamember me ms ≡ false

Waits-erase_first :
    (me m : Bytes) (w ms : List Bytes) → Waits me w (m ∷ ms) → Waits me (erase_first m w) ms
Waits-erase_first me m w ms h = record {
  distinct = erase_first-Distinct m w h.distinct;
  here =
      ground
        (arith, isamember-erase_first me m w, str_eq_iff me m, str_eq_iff m me, h.here, h.away);
  others = λ n k differ.
      let more = h.others n (erase_first-kept n m w k) differ in
      let gone = erase_first_gone m w h.distinct in
      elim (Bool-cases (m == n)) [
        | inl same ↦
            absurd (
              cc (sym gone ∙ ap (λ y. isamember y (erase_first m w)) ((str_eq_iff m n).0 same) ∙ k))
        | inr next ↦
            (let more' : (if m == n then true else isamember n ms) ≡ true = more in
              rw next at more')
      ];
  away = ground (arith, h.away);
}

lone : (me : Bytes) (w : List Bytes) → Waits me w [] → (length w == 1) ≡ true
lone me [] h = absurd (cc h.here)
lone me (x ∷ []) h = refl
lone me (x ∷ y ∷ w) h = elim (Bool-cases (x == me)) [
  | inr other ↦ absurd (cc (h.others x (ground (arith, beq_self x)) other))
  | inl first ↦ elim (Bool-cases (y == me)) [
    | inr other ↦ absurd (cc (h.others y (ground (arith, beq_self y)) other))
    | inl second ↦ ground (arith, h.distinct.0, str_eq_iff x me, str_eq_iff y me, beq_self x)
  ]
]

two_left :
    (me x : Bytes) (w : List Bytes)
    → isamember me w ≡ true
    → isamember x w ≡ true
    → (x == me) ≡ false
    → (length w == 1) ≡ false
two_left me x [] p q d = absurd (cc p)
two_left me x (y ∷ []) p q d =
    absurd (ground (arith, p, q, d, str_eq_iff y me, str_eq_iff y x, str_eq_iff x me))
two_left me x (y ∷ z ∷ w) p q d = ground arith

module _ {A : Type 0} where
  -- The members `ms` tell the primary, one after the other, that they have their state.
  abbrev pub done_all : List Bytes → Rsm A → Rsm A
  done_all [] s = s
  done_all (m ∷ ms) s = done_all ms (transferdonereq m s).1

  transferdonereq_next :
      (m x : Bytes) (s : Rsm A)
      → s.inviewchange ≡ true
      → isamember x s.waiting_for_transfer ≡ true
      → (transferdonereq m s).1
        ≡ record s { waiting_for_transfer = erase_first m s.waiting_for_transfer }
  unfolding transferdonereq
  transferdonereq_next m x s c h =
      let full : (length s.waiting_for_transfer == 0) ≡ false =
        elim (List-cases s.waiting_for_transfer) [
          | inl e ↦ absurd (cc (ap (isamember x) (sym e) ∙ h))
          | inr (y, ys, e) ↦ ground (arith, ap length e)
        ] in
      simp (c, full)

  -- The primary is in the view change, and waits.
  record Syncs (ms : List Bytes) (s : Rsm A) : Type 0 where
    changing : s.inviewchange ≡ true
    primary : (s.primary == s.cfg.me) ≡ true
    waits : Waits s.cfg.me s.waiting_for_transfer ms

  done_all_ends :
      (ms : List Bytes) (s : Rsm A)
      → Syncs ms s
      → (recover_primary (done_all ms s)).inviewchange ≡ false
  unfolding recover_primary
  done_all_ends [] s h = simp (h.changing, h.primary, lone s.cfg.me s.waiting_for_transfer h.waits)
  done_all_ends (m ∷ ms) s h =
      ap (λ t. (recover_primary (done_all ms t)).inviewchange)
        (transferdonereq_next m s.cfg.me s h.changing h.waits.here)
      ∙ done_all_ends ms (record s { waiting_for_transfer = erase_first m s.waiting_for_transfer })
          (record {
            changing = h.changing;
            primary = h.primary;
            waits = Waits-erase_first s.cfg.me m s.waiting_for_transfer ms h.waits;
          })

  -- The nodes that the primary waits for once one has told it: those that an earlier view change
  -- has left in the list, or the members of the view where there are none.
  abbrev pub awaited : Rsm A → List Bytes
  awaited s = if length s.waiting_for_transfer == 0 then current s else s.waiting_for_transfer

  -- A node that tells nothing holds the view change up.
  done_all_stays :
      (x : Bytes) (ms : List Bytes) (s : Rsm A)
      → s.inviewchange ≡ true
      → (s.primary == s.cfg.me) ≡ true
      → isamember s.cfg.me s.waiting_for_transfer ≡ true
      → isamember x s.waiting_for_transfer ≡ true
      → (x == s.cfg.me) ≡ false
      → isamember s.cfg.me ms ≡ false
      → isamember x ms ≡ false
      → (recover_primary (done_all ms s)).inviewchange ≡ true
  unfolding recover_primary
  done_all_stays x [] s c p here there d away silent =
      simp (c, p, two_left s.cfg.me x s.waiting_for_transfer here there d)
  done_all_stays x (m ∷ ms) s c p here there d away silent =
      let w = s.waiting_for_transfer in
      ap (λ t. (recover_primary (done_all ms t)).inviewchange)
        (transferdonereq_next m s.cfg.me s c here)
      ∙ done_all_stays x ms (record s { waiting_for_transfer = erase_first m w }) c p
          (ground (
            arith,
            isamember-erase_first s.cfg.me m w,
            str_eq_iff m s.cfg.me,
            str_eq_iff s.cfg.me m,
            here,
            away,
          ))
          (ground
            (arith, isamember-erase_first x m w, str_eq_iff m x, str_eq_iff x m, there, silent))
          d (ground (arith, away)) (ground (arith, silent))

  -- The state after the first node has told.
  after_first : Bytes → Rsm A → Rsm A
  after_first m s =
      if length s.waiting_for_transfer == 0
      then record s {
        cfg = (get_curview s.cfg).1;
        waiting_for_transfer = erase_first m (current s);
      }
      else record s { waiting_for_transfer = erase_first m s.waiting_for_transfer }

  transferdonereq_first :
      (m : Bytes) (s : Rsm A) → s.inviewchange ≡ true → (transferdonereq m s).1 ≡ after_first m s
  unfolding transferdonereq get_curview get_view after_first
  transferdonereq_first m s c = elim (Bool-cases (length s.waiting_for_transfer == 0)) [
    | inl none_left ↦ simp (c, none_left)
    | inr some_left ↦ simp (c, some_left)
  ]

  after_first_lem :
      (m : Bytes) (s : Rsm A)
      → s.inviewchange ≡ true
      → (s.primary == s.cfg.me) ≡ true
      → ((after_first m s).inviewchange ≡ true)
        × (((after_first m s).primary == (after_first m s).cfg.me) ≡ true)
        × ((after_first m s).cfg.me ≡ s.cfg.me)
        × ((after_first m s).waiting_for_transfer ≡ erase_first m (awaited s))
  unfolding after_first get_curview get_view
  after_first_lem m s c p = elim (Bool-cases (length s.waiting_for_transfer == 0)) [
    | inl none_left ↦ rw none_left (c, p, refl, refl)
    | inr some_left ↦ rw some_left (c, p, refl, refl)
  ]

  -- At the primary in a view change, other nodes tell it, one after the other and in any order, that
  -- they have their state. The nodes that it waits for are those that an earlier view change has left
  -- in its list, also where they are not in the view, or the members of the view where there are
  -- none; it is one of them itself, and none stands twice. If all others of these have told, the view
  -- change ends; if one of these has not, it goes on.
  pub view_change_ends :
      (m : Bytes) (ms : List Bytes) (s : Rsm A)
      → s.inviewchange ≡ true
      → (s.primary == s.cfg.me) ≡ true
      → Distinct (awaited s)
      → isamember s.cfg.me (awaited s) ≡ true
      → isamember s.cfg.me (m ∷ ms) ≡ false
      → (Others s.cfg.me (awaited s) (m ∷ ms)
          → (recover_primary (done_all (m ∷ ms) s)).inviewchange ≡ false)
        × ((x : Bytes)
            → isamember x (awaited s) ≡ true
            → (x == s.cfg.me) ≡ false
            → isamember x (m ∷ ms) ≡ false
            → (recover_primary (done_all (m ∷ ms) s)).inviewchange ≡ true)
  view_change_ends m ms s changing primary distinct here away =
      let t = after_first m s in
      let (c, p, me, left) = after_first_lem m s changing primary in
      let first =
        ap (λ t. (recover_primary (done_all ms t)).inviewchange)
          (transferdonereq_first m s changing) in
      (
        λ others.
            let w : Waits s.cfg.me (awaited s) (m ∷ ms) = record {
              distinct = distinct;
              here = here;
              others = others;
              away = away;
            } in
            let w' : Waits t.cfg.me t.waiting_for_transfer ms =
              rw (me, left) (Waits-erase_first s.cfg.me m (awaited s) ms w) in
            first ∙ done_all_ends ms t (record { changing = c; primary = p; waits = w' }),
        λ x there other silent.
            let kept : isamember s.cfg.me (erase_first m (awaited s)) ≡ true = ground (
              arith,
              isamember-erase_first s.cfg.me m (awaited s),
              str_eq_iff m s.cfg.me,
              str_eq_iff s.cfg.me m,
              here,
              away,
            ) in
            let kept_x : isamember x (erase_first m (awaited s)) ≡ true = ground (
              arith,
              isamember-erase_first x m (awaited s),
              str_eq_iff m x,
              str_eq_iff x m,
              there,
              silent,
            ) in
            first
            ∙ done_all_stays x ms t c p (rw (me, left) kept) (rw left kept_x) (rw me other)
                (rw me (ground (arith, away))) (ground (arith, silent)),
      )
