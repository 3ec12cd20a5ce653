-- ===== src/Rpc/Replies/Stale.antt =====
-- A delayed copy of a request, received after a later request has acknowledged its reply. The copy
-- bears the `xid_rep` of the time when it was sent, and the window is extended down to that.
use lab.Base.{
  ℕ, zero, suc, ◌-◌, ◌≤◌, ◌<◌, ◌≡◌, refl, sym, subst, ap, ◌∙◌, inl, inr, ◌≢◌, Option, none, some,
  List, [], ◌∷◌, length, arith, ltb, Bool-cases, ◌==◌, nat_key,
}
use lab.Base.Map.{at}
use lab.Rpc.Replies.{
  Reply, new_reply, new, drop_acked, first_xid, prev_xid, fill_front, last_xid, fill_back, filled,
  check, claim, Windows, checkduplicate_and_update,
}
use lab.Rpc.Replies.Window.{Consecutive, check-filled, check_lem, claim-length}
use lab.Rpc.Replies.AtMostOnce.{find, find-fill_front, find-fill_back, claim-find}
use lab.Rpc.Replies.Trace.{IsWindow, at-insert_self}

find-dummy :
    (x r f : ℕ) (l : List Reply) → r < x → x ≤ f → find x (fill_front r f l) ≡ some (new_reply x)
unfolding fill_front
find-dummy x r zero l h k = absurd (omega arith)
find-dummy x r (suc f) l h k = elim (Bool-cases (ltb r (suc f))) [
  | inr stop ↦ absurd (ground arith)
  | inl more ↦ rw more (elim (Bool-cases (suc f == x)) [
    | inr other ↦ find-dummy x r f (new_reply (suc f) ∷ l) h (ground arith)
    | inl last ↦
        find-fill_front x r f (new_reply (suc f) ∷ l) (ground arith) ∙ (rw last (ground arith))
  ])
]

-- The numbers that an unacknowledged prefix of the window lacks come back as dummies.
find-refilled :
    (x r b : ℕ) (k w : List Reply)
    → r < x
    → x ≤ b
    → Consecutive b k
    → k ≢ []
    → elim (last_xid (fill_front r (first_xid x k) k)) [
      | none ↦ none
      | some last ↦ some (fill_back (x - last) last (fill_front r (first_xid x k) k))
    ]
      ≡ some w
    → find x w ≡ some (new_reply x)
find-refilled x r b [] w h k c n q = absurd (n refl)
find-refilled x r b (t ∷ ts) w h k c n q = go (last_xid front) refl
  where
    front : List Reply
    front = fill_front r (prev_xid t.xid) (t ∷ ts)

    held : find x front ≡ some (new_reply x)
    held = find-dummy x r (prev_xid t.xid) (t ∷ ts) h (rw (ap prev_xid c.0) k)

    go : (o : Option ℕ) → last_xid front ≡ o → find x w ≡ some (new_reply x)
    go none e = cc (rw e at q)
    go (some last) e =
        let e' : some (fill_back (x - last) last front) ≡ some w = rw e at q in
        subst (λ v. find x v ≡ some (new_reply x)) (cc e')
          (find-fill_back x (x - last) last front (new_reply x) held)

drop_acked_none : (r a : ℕ) (l : List Reply) → Consecutive a l → r ≤ a → drop_acked r l ≡ l
unfolding drop_acked
drop_acked_none r a [] c h = refl
drop_acked_none r a (p ∷ l) c h = ground arith

check_stale :
    (x r a : ℕ) (l : List Reply) → r < x → x ≤ a → Consecutive a l → l ≢ [] → (check x r l).0 ≡ new
unfolding filled
check_stale x r a l h k c n =
    let (w, f, cw, _, q) = check-filled x r a l h c in
    let keep = drop_acked_none r a l c (omega arith) in
    let found =
      find-refilled x r a (drop_acked r l) w h k (subst (Consecutive a) (sym keep) c)
        (λ e. n (sym keep ∙ e)) f in
    rw q (claim-find x w (new_reply x) found).0

check_nonempty : (y q a : ℕ) (l : List Reply) → q < y → Consecutive a l → (check y q l).1 ≢ []
check_nonempty y q a l h c e =
    let (w, f, cw, k, p) = check-filled y q a l h c in
    let empty : (claim y w).1 ≡ [] = rw p at e in
    absurd (omega (arith, claim-length y w, ap length empty))

-- From a window of consecutive numbers, after a request of the client has acknowledged `x`, a
-- copy of request `x` with `xid_rep` below `x`, as it was sent before, is classified as new, so
-- that its handler runs again.
pub acknowledged_runs_again :
    (c x r y q : ℕ) (ws : Windows)
    → IsWindow c ws
    → r < x
    → x ≤ q
    → q < y
    → (checkduplicate_and_update c x r (checkduplicate_and_update c y q ws).1).0 ≡ new
unfolding checkduplicate_and_update
acknowledged_runs_again c x r y q ws (a, k) h le lt =
    let l = (check y q (at c [] ws)).1 in
    rw (at-insert_self c l ws) (
      check_stale x r q l h le (check_lem y q a (at c [] ws) lt k).1
        (check_nonempty y q a (at c [] ws) lt k))
