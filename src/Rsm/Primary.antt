-- ===== src/Rsm/Primary.antt =====
-- Which node becomes the primary of a new view.
use lab.Base.{
  ◌≡◌, refl, sym, ap, ◌∙◌, inl, inr, true, false, some, List, [], ◌∷◌, arith, ◌==◌, if◌then◌else◌,
  nat_key, length, Bool-cases,
}
use lab.Base.Bytes.{Bytes, str_key, str_eq_iff}
use lab.Base.Map.{beq_self}
use lab.Paxos.Proposer.{isamember}
use lab.Config.{get_curview, get_prevview}
use lab.Rsm.{Rsm, first_in, choose, set_primary}

-- Node `m` is the first of `p` that is in `c`.
abbrev FirstOf : List Bytes → List Bytes → Type 0
FirstOf p c =
    (m : Bytes) × (first_in p c ≡ some m) × (isamember m c ≡ true) × (isamember m p ≡ true)

first_in_lem :
    (p c : List Bytes) (x : Bytes) → isamember x p ≡ true → isamember x c ≡ true → FirstOf p c
unfolding first_in
first_in_lem [] c x h k = absurd (cc h)
first_in_lem (n ∷ p) c x h k = elim (Bool-cases (isamember n c)) [
  | inl here ↦ (n, rw here refl, here, ground (arith, beq_self n))
  | inr away ↦
      let deep : isamember x p ≡ true = elim (Bool-cases (n == x)) [
        | inl same ↦ absurd (cc (sym away ∙ ap (λ y. isamember y c) ((str_eq_iff n x).0 same) ∙ k))
        | inr other ↦
            (let h' : (if n == x then true else isamember x p) ≡ true = h in rw other at h')
      ] in
      let f = first_in_lem p c x deep k in (f.0, rw away f.1, f.2, ground (arith, f.3))
]

-- The members of the current view of `s`, and those of the view before.
abbrev pub current : {A : Type 0} → Rsm A → List Bytes
current s = (get_curview s.cfg).0

abbrev pub previous : {A : Type 0} → Rsm A → List Bytes
previous s = (get_prevview (get_curview s.cfg).1).0

set_primary-some :
    {A : Type 0} (s : Rsm A) (m : Bytes)
    → choose s.primary (current s) (previous s) ≡ some m
    → (t : Rsm A) × (set_primary s ≡ some t)
      × (t.primary ≡ m)
      × (t.app ≡ s.app)
      × (t.myvs ≡ s.myvs)
      × (t.cfg ≡ (get_prevview (get_curview s.cfg).1).1)
unfolding set_primary
set_primary-some s m e = (
  record s { primary = m; cfg = (get_prevview (get_curview s.cfg).1).1 },
  rw (e, set_primary) refl,
  refl,
  refl,
  refl,
  refl,
)

-- Where the current view shares a member with the one before, a primary is found: a member of the
-- current view, which is the old primary if that is still a member, and a member of the view
-- before if it is not. The service and the viewstamp stay as they are, and so does the
-- configuration but for the entries that the reads of views leave.
pub new_primary :
    {A : Type 0} (s : Rsm A) (x : Bytes)
    → isamember x (current s) ≡ true
    → isamember x (previous s) ≡ true
    → (t : Rsm A) × (set_primary s ≡ some t)
      × (isamember t.primary (current s) ≡ true)
      × (isamember s.primary (current s) ≡ true → t.primary ≡ s.primary)
      × (isamember s.primary (current s) ≡ false → isamember t.primary (previous s) ≡ true)
      × (t.app ≡ s.app)
      × (t.myvs ≡ s.myvs)
      × (t.cfg ≡ (get_prevview (get_curview s.cfg).1).1)
unfolding choose
new_primary s x h k =
    let full = nonempty (current s) x h in
    elim (Bool-cases (isamember s.primary (current s))) [
      | inl stays ↦
          let t = set_primary-some s s.primary (rw (full, stays) refl) in
          (
            t.0,
            t.1,
            ap (λ m. isamember m (current s)) t.2 ∙ stays,
            λ _. t.2,
            λ out. absurd (cc (sym stays ∙ out)),
            t.3,
            t.4,
            t.5,
          )
      | inr out ↦
          let f = first_in_lem (previous s) (current s) x k h in
          let t = set_primary-some s f.0 (rw (full, out) f.1) in
          (
            t.0,
            t.1,
            ap (λ m. isamember m (current s)) t.2 ∙ f.2,
            λ stays. absurd (cc (sym stays ∙ out)),
            λ _. ap (λ m. isamember m (previous s)) t.2 ∙ f.3,
            t.3,
            t.4,
            t.5,
          )
    ]
  where
    nonempty : (c : List Bytes) (x : Bytes) → isamember x c ≡ true → (length c == 0) ≡ false
    nonempty [] x h = absurd (cc h)
    nonempty (n ∷ c) x h = ground arith
