-- ===== src/Handle/Users.antt =====
-- The users of handles, and the entries that count them.
use lab.Base.{
  ℕ, ◌+◌, ◌-◌, ◌≡◌, ◌≢◌, refl, sym, ap, ◌∙◌, inl, inr, Bool, true, Option, none, some, List, [],
  ◌∷◌, ◌==◌, if◌then◌else◌, nat_key, Bool-cases,
}
use lab.Base.Bytes.{Bytes, str_key, str_eq_iff}
use lab.Base.Map.{Map, lookup, insert, erase, at, lookup-insert, lookup-erase}
use lab.Handle.{Hinfo, Hmap, get_handle, delete_handle, done_handle}

-- What users do: a `handle` is made and comes to its end, or the handles of a node are given up.
pub data Event : Type 0 where
  opens : Bool → Bytes → Event
  closes : Bytes → Event
  deletes : Bytes → Event

-- The manager, and how many handles of each node are in use.
pub record Users : Type 0 where
  pub hmap : Hmap
  pub uses : Map Bytes ℕ

abbrev pub used : Bytes → Users → ℕ
used m u = at m 0 u.uses

-- A handle that is not in use does not come to its end. `none` is a pointer that is followed
-- after its entry has gone.
unfoldable pub step : Event → Users → Option Users
step (opens bound m) u =
    let (got, t) = get_handle bound m u.hmap in
    some (
      if got
      then record { hmap = t; uses = insert m (used m u + 1) u.uses }
      else record u { hmap = t })
step (closes m) u = if used m u == 0 then some u else elim (done_handle m u.hmap) [
  | none ↦ none
  | some t ↦ some (record { hmap = t; uses = insert m (used m u - 1) u.uses })
]
step (deletes m) u = some (record u { hmap = delete_handle m u.hmap })

-- The entry of node `m` counts the uses, and one that is to be deleted is in use.
abbrev pub Counted : ℕ → Option Hinfo → Type 0
Counted n none = n ≡ 0
Counted n (some h) = (h.refcnt ≡ n) × (h.del ≡ true → n ≢ 0)

abbrev pub IsCounted : Users → Type 0
IsCounted u = (m : Bytes) → Counted (used m u) (lookup m u.hmap)

-- One entry and its uses change together.
pub changed-IsCounted :
    (m : Bytes) (h : Hinfo) (n : ℕ) (u : Users)
    → Counted n (some h)
    → IsCounted u
    → IsCounted (record { hmap = insert m h u.hmap; uses = insert m n u.uses })
changed-IsCounted m h n u k c other = elim (Bool-cases (m == other)) [
  | inl same ↦
      let p : lookup other (insert m h u.hmap) ≡ some h =
        lookup-insert m other h u.hmap ∙ rw same refl in
      let q : lookup other (insert m n u.uses) ≡ some n =
        lookup-insert m other n u.uses ∙ rw same refl in
      rw (p, q, at) k
  | inr differ ↦
      let p : lookup other (insert m h u.hmap) ≡ lookup other u.hmap =
        lookup-insert m other h u.hmap ∙ rw differ refl in
      let q : lookup other (insert m n u.uses) ≡ lookup other u.uses =
        lookup-insert m other n u.uses ∙ rw differ refl in
      rw (p, q, at) (c other)
]

pub marked-IsCounted :
    (m : Bytes) (h : Hinfo) (u : Users)
    → Counted (used m u) (some h)
    → IsCounted u
    → IsCounted (record u { hmap = insert m h u.hmap })
marked-IsCounted m h u k c other = elim (Bool-cases (m == other)) [
  | inl same ↦
      let p : lookup other (insert m h u.hmap) ≡ some h =
        lookup-insert m other h u.hmap ∙ rw same refl in
      rw p (rw⁻¹ ((str_eq_iff m other).0 same) k)
  | inr differ ↦
      let p : lookup other (insert m h u.hmap) ≡ lookup other u.hmap =
        lookup-insert m other h u.hmap ∙ rw differ refl in
      rw p (c other)
]

pub erased-IsCounted :
    (m : Bytes) (u : Users)
    → used m u ≡ 0
    → IsCounted u
    → IsCounted (record u { hmap = erase m u.hmap })
erased-IsCounted m u z c other = elim (Bool-cases (m == other)) [
  | inl same ↦
      let p : lookup other (erase m u.hmap) ≡ none = lookup-erase m other u.hmap ∙ rw same refl in
      rw p (ap (λ x. used x u) (sym ((str_eq_iff m other).0 same)) ∙ z)
  | inr differ ↦
      let p : lookup other (erase m u.hmap) ≡ lookup other u.hmap =
        lookup-erase m other u.hmap ∙ rw differ refl in
      rw p (c other)
]

-- An entry goes with its last use.
pub ended-IsCounted :
    (m : Bytes) (h : Hinfo) (u : Users)
    → IsCounted u
    → IsCounted (record { hmap = erase m (insert m h u.hmap); uses = insert m 0 u.uses })
ended-IsCounted m h u c other = elim (Bool-cases (m == other)) [
  | inl same ↦
      let p : lookup other (erase m (insert m h u.hmap)) ≡ none =
        lookup-erase m other (insert m h u.hmap) ∙ rw same refl in
      let q : lookup other (insert m 0 u.uses) ≡ some 0 =
        lookup-insert m other 0 u.uses ∙ rw same refl in
      rw (p, q, at) refl
  | inr differ ↦
      let p : lookup other (erase m (insert m h u.hmap)) ≡ lookup other u.hmap =
        lookup-erase m other (insert m h u.hmap)
        ∙ rw differ (lookup-insert m other h u.hmap ∙ rw differ refl) in
      let q : lookup other (insert m 0 u.uses) ≡ lookup other u.uses =
        lookup-insert m other 0 u.uses ∙ rw differ refl in
      rw (p, q, at) (c other)
]

unfoldable pub run : List Event → Users → Option Users
run [] u = some u
run (e ∷ es) u = elim (step e u) [ none ↦ none | some t ↦ run es t ]

abbrev pub no_users : Users
no_users = record { hmap = []; uses = [] }
