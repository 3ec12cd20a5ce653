-- ===== src/Handle/Uses.antt =====
-- The handles that are in use.
use lab.Base.{
  ◌+◌, ◌-◌, ◌≡◌, refl, ap, ◌∙◌, inl, inr, Bool, true, false, ◌&&◌, some, List, [], ◌∷◌, arith, ◌==◌,
  if◌then◌else◌, nat_key, Bool-cases, Option-cases,
}
use lab.Base.Bytes.{Bytes, str_key}
use lab.Base.Map.{lookup, insert, erase, lookup-insert, beq_self}
use lab.Handle.{Hinfo, Hmap, get_handle, delete_handle_wo, delete_handle, done_handle}
use lab.Handle.Users.{
  Event, opens, closes, deletes, Users, used, step, run, no_users, Counted, IsCounted,
  changed-IsCounted, marked-IsCounted, erased-IsCounted, ended-IsCounted,
}

delete_handle_wo-IsCounted :
    (m : Bytes) (u : Users)
    → IsCounted u
    → IsCounted (record u { hmap = delete_handle_wo m u.hmap })
unfolding delete_handle_wo
delete_handle_wo-IsCounted m u c = elim (Option-cases (lookup m u.hmap)) [
  | inl unknown ↦ rw (unknown, delete_handle_wo) c
  | inr (h, e) ↦
      let k : Counted (used m u) (some h) = rw e at (c m) in
      elim (Bool-cases (h.refcnt == 0)) [
        | inl unused ↦
            rw (e, delete_handle_wo, unused) (erased-IsCounted m u (ground (arith, k.0, unused)) c)
        | inr busy ↦
            rw (e, delete_handle_wo, busy)
              (marked-IsCounted m (record h { del = true }) u (k.0, λ t. ground (arith, k.0, busy))
                c)
      ]
]

opens_step :
    (bound : Bool) (m : Bytes) (u : Users) (r : Bool × Hmap)
    → get_handle bound m u.hmap ≡ r
    → step (opens bound m) u
      ≡ some (
          if r.0
          then record { hmap = r.1; uses = insert m (used m u + 1) u.uses }
          else record u { hmap = r.1 })
unfolding step
opens_step bound m u r e =
    ap
      (λ (q : Bool × Hmap). some (
        if q.0
        then record { hmap = q.1; uses = insert m (used m u + 1) u.uses }
        else record u { hmap = q.1 }))
      e

opens-IsCounted :
    (bound : Bool) (m : Bytes) (u : Users)
    → IsCounted u
    → (t : Users) × (step (opens bound m) u ≡ some t) × IsCounted t
unfolding get_handle
opens-IsCounted bound m u c = elim (Option-cases (lookup m u.hmap)) [
  | inl unknown ↦
      let z : used m u ≡ 0 = rw unknown at (c m) in
      elim (Bool-cases bound) [
        | inl connected ↦ (
          record {
            hmap = insert m (record { refcnt = 1; del = false }) u.hmap;
            uses = insert m (used m u + 1) u.uses;
          },
          opens_step bound m u (true, _) (rw (unknown, get_handle, connected) refl),
          changed-IsCounted m (record { refcnt = 1; del = false }) (used m u + 1) u
              (omega arith, λ e. cc e) c,
        )
        | inr lost ↦
            (u, opens_step bound m u (false, u.hmap) (rw (unknown, get_handle, lost) refl), c)
      ]
  | inr (h, e) ↦
      let k : Counted (used m u) (some h) = rw e at (c m) in
      elim (Bool-cases h.del) [
        | inl given_up ↦
            (u, opens_step bound m u (false, u.hmap) (rw (e, get_handle, given_up) refl), c)
        | inr open_one ↦ (
          record {
            hmap = insert m (record h { refcnt = h.refcnt + 1 }) u.hmap;
            uses = insert m (used m u + 1) u.uses;
          },
          opens_step bound m u (true, _) (rw (e, get_handle, open_one) refl),
          changed-IsCounted m (record h { refcnt = h.refcnt + 1 }) (used m u + 1) u
              (omega (arith, k.0), λ t. omega arith) c,
        )
      ]
]

closes_step :
    (m : Bytes) (u : Users) (t : Hmap)
    → (used m u == 0) ≡ false
    → done_handle m u.hmap ≡ some t
    → step (closes m) u ≡ some (record { hmap = t; uses = insert m (used m u - 1) u.uses })
unfolding step
closes_step m u t busy e = rw (busy, e) refl

erased_step :
    (m : Bytes) (h : Hinfo) (t : Hmap)
    → h.refcnt ≡ 0
    → delete_handle_wo m (insert m h t) ≡ erase m (insert m h t)
unfolding delete_handle_wo
erased_step m h t z =
    let p : lookup m (insert m h t) ≡ some h = lookup-insert m m h t ∙ rw (beq_self m) refl in
    rw (p, delete_handle_wo, z) refl

closes-IsCounted :
    (m : Bytes) (u : Users) → IsCounted u → (t : Users) × (step (closes m) u ≡ some t) × IsCounted t
unfolding step done_handle
closes-IsCounted m u c = elim (Bool-cases (used m u == 0)) [
  | inl unused ↦ (u, simp (unused), c)
  | inr busy ↦ elim (Option-cases (lookup m u.hmap)) [
    | inl gone ↦ absurd (ground (arith, busy, (let z : used m u ≡ 0 = rw gone at (c m) in z)))
    | inr (h, e) ↦
        let k : Counted (used m u) (some h) = rw e at (c m) in
        let left : Hinfo = record h { refcnt = h.refcnt - 1 } in
        elim (Bool-cases (h.refcnt - 1 == 0 && h.del)) [
          | inl last ↦
              let z : h.refcnt - 1 ≡ 0 = ground (arith, last) in
              let d : done_handle m u.hmap ≡ some (erase m (insert m left u.hmap)) =
                rw (e, done_handle, last) (ap some (erased_step m left u.hmap z)) in
              let y : used m u - 1 ≡ 0 = rw⁻¹ k.0 z in
              (
                record { hmap = erase m (insert m left u.hmap); uses = insert m 0 u.uses },
                closes_step m u _ busy d
                    ∙ ap
                        (λ x. some (record {
                          hmap = erase m (insert m left u.hmap);
                          uses = insert m x u.uses;
                        }))
                        y,
                ended-IsCounted m left u c,
              )
          | inr more ↦ (
            record { hmap = insert m left u.hmap; uses = insert m (used m u - 1) u.uses },
            closes_step m u _ busy (rw (e, done_handle, more) refl),
            changed-IsCounted m left (used m u - 1) u
                (omega (arith, k.0), λ t. ground (arith, k.0, more, t)) c,
          )
        ]
  ]
]

deletes-IsCounted :
    (m : Bytes) (u : Users)
    → IsCounted u
    → (t : Users) × (step (deletes m) u ≡ some t) × IsCounted t
unfolding step delete_handle
deletes-IsCounted m u c =
    (record u { hmap = delete_handle_wo m u.hmap }, refl, delete_handle_wo-IsCounted m u c)

step-IsCounted :
    (e : Event) (u : Users) → IsCounted u → (t : Users) × (step e u ≡ some t) × IsCounted t
step-IsCounted (opens bound m) u c = opens-IsCounted bound m u c
step-IsCounted (closes m) u c = closes-IsCounted m u c
step-IsCounted (deletes m) u c = deletes-IsCounted m u c

run-IsCounted :
    (es : List Event) (u : Users) → IsCounted u → (t : Users) × (run es u ≡ some t) × IsCounted t
unfolding run
run-IsCounted [] u c = (u, refl, c)
run-IsCounted (e ∷ es) u c =
    let (t, p, d) = step-IsCounted e u c in
    let (v, q, f) = run-IsCounted es t d in (v, rw (p, run) q, f)

-- Whatever the users do from an empty manager, in any order and with connections that may fail, no
-- handle that is in use has lost its entry when it comes to its end; and then the entry of each
-- node counts exactly the handles in use, a node without an entry has none in use, and an entry
-- that is marked to be deleted is still in use.
pub uses-IsCounted : (es : List Event) → (t : Users) × (run es no_users ≡ some t) × IsCounted t
unfolding lookup
uses-IsCounted es = run-IsCounted es no_users (λ m. refl)
