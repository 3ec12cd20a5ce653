-- ===== src/Rpc/Replies/AtMostOnce.antt =====
-- What the window guarantees while the client has not acknowledged a request: it is started once,
-- and its saved reply is handed out.
use lab.Base.{
  ℕ, zero, suc, ◌-◌, ◌≤◌, ◌<◌, ◌≡◌, refl, subst, ap, ◌∙◌, inl, inr, ◌≢◌, true, Option, none, some,
  List, [], ◌∷◌, ◌++◌, arith, Bool-cases, Option-cases, ◌==◌, nat_key, if◌then◌else◌,
}
use lab.Base.Bytes.{Bytes}
use lab.Rpc.Replies.{
  Reply, new_reply, new, drop_acked, first_xid, prev_xid, saved, fill_front, last_xid, fill_back,
  filled, check, claim, store,
}
use lab.Rpc.Replies.Window.{Consecutive, check-filled, drop_acked-Consecutive}

-- The reply that the window holds for a number.
abbrev pub find : ℕ → List Reply → Option Reply
find x [] = none
find x (p ∷ ps) = if p.xid == x then some p else find x ps

find_above : (x a : ℕ) (l : List Reply) (p : Reply) → Consecutive a l → find x l ≡ some p → a < x
find_above x a [] p c e = cc
find_above x a (q ∷ l) p c e = elim (Bool-cases (q.xid == x)) [
  | inl here ↦ ground arith
  | inr there ↦ omega (arith, find_above x (suc a) l p c.1 (ground arith))
]

pub find_absent : (x a : ℕ) (l : List Reply) → Consecutive a l → x ≤ a → find x l ≡ none
find_absent x a [] c h = refl
find_absent x a (q ∷ l) c h = ground (arith, find_absent x (suc a) l c.1)

find-drop_acked : (x r : ℕ) (l : List Reply) → r < x → find x (drop_acked r l) ≡ find x l
unfolding drop_acked
find-drop_acked x r [] h = refl
find-drop_acked x r (p ∷ l) h = ground (arith, find-drop_acked x r l)

pub find-fill_front : (x r f : ℕ) (l : List Reply) → f < x → find x (fill_front r f l) ≡ find x l
unfolding fill_front
find-fill_front x r zero l h = refl
find-fill_front x r (suc f) l h = ground (arith, find-fill_front x r f (new_reply (suc f) ∷ l))

find-append : (x : ℕ) (l m : List Reply) (p : Reply) → find x l ≡ some p → find x (l ++ m) ≡ some p
find-append x [] m p e = cc
find-append x (q ∷ l) m p e = ground (arith, find-append x l m p)

pub find-fill_back :
    (x n last : ℕ) (l : List Reply) (p : Reply)
    → find x l ≡ some p
    → find x (fill_back n last l) ≡ some p
unfolding fill_back
find-fill_back x zero last l p e = e
find-fill_back x (suc n) last l p e =
    find-fill_back x n (suc last) (l ++ new_reply (suc last) ∷ []) p
      (find-append x l (new_reply (suc last) ∷ []) p e)

-- Filling the gaps of a kept window `k` leaves what it holds in place.
find-gaps :
    (x y r b : ℕ) (k w : List Reply) (p : Reply)
    → Consecutive b k
    → find x k ≡ some p
    → elim (last_xid (fill_front r (first_xid y k) k)) [
      | none ↦ none
      | some last ↦ some (fill_back (y - last) last (fill_front r (first_xid y k) k))
    ]
      ≡ some w
    → find x w ≡ some p
find-gaps x y r b [] w p c e q = cc
find-gaps x y r b (t ∷ k) w p c e q = go (last_xid front) refl
  where
    front : List Reply
    front = fill_front r (prev_xid t.xid) (t ∷ k)

    low : prev_xid t.xid < x
    low = rw (ap prev_xid c.0) (find_above x b (t ∷ k) p c e)

    held : find x front ≡ some p
    held = find-fill_front x r (prev_xid t.xid) (t ∷ k) low ∙ e

    go : (o : Option ℕ) → last_xid front ≡ o → find x w ≡ some p
    go none n = cc (rw n at q)
    go (some last) n =
        let e' : some (fill_back (y - last) last front) ≡ some w = rw n at q in
        subst (λ v. find x v ≡ some p) (cc e') (find-fill_back x (y - last) last front p held)

find-filled :
    (x y r a : ℕ) (l w : List Reply) (p : Reply)
    → r < x
    → Consecutive a l
    → find x l ≡ some p
    → filled y r l ≡ some w
    → find x w ≡ some p
unfolding filled
find-filled x y r a l w p h c e q = elim (drop_acked-Consecutive r a l c) [
  | inl empty ↦ absurd (cc (find-drop_acked x r l h, ap (find x) empty))
  | inr (b, le, cb) ↦ find-gaps x y r b (drop_acked r l) w p cb (find-drop_acked x r l h ∙ e) q
]

-- `claim` answers for the reply that `find` sees, and marks it.
pub claim-find :
    (x : ℕ) (l : List Reply) (p : Reply)
    → find x l ≡ some p
    → ((claim x l).0 ≡ (if p.cb_present then saved p.buf else new))
      × (find x (claim x l).1 ≡ some (record p { cb_present = true }))
unfolding claim
claim-find x [] p e = cc
claim-find x (q ∷ l) p e = ground (arith, claim-find x l p)

claim-find_ne : (x y : ℕ) (l : List Reply) → y ≢ x → find x (claim y l).1 ≡ find x l
unfolding claim
claim-find_ne x y [] h = refl
claim-find_ne x y (q ∷ l) h = ground (arith, claim-find_ne x y l)

-- A repeated request is answered from the reply that the window holds for it.
pub check-find_self :
    (x r a : ℕ) (l : List Reply) (p : Reply)
    → r < x
    → Consecutive a l
    → find x l ≡ some p
    → ((check x r l).0 ≡ (if p.cb_present then saved p.buf else new))
      × (find x (check x r l).1 ≡ some (record p { cb_present = true }))
check-find_self x r a l p h c e =
    let (w, f, cw, _, q) = check-filled x r a l h c in
    rw q (claim-find x w p (find-filled x x r a l w p h c e f))

-- A request that does not acknowledge `x` leaves the reply for `x` in place.
pub check-find_ne :
    (x y r a : ℕ) (l : List Reply) (p : Reply)
    → r < x
    → r < y
    → y ≢ x
    → Consecutive a l
    → find x l ≡ some p
    → find x (check y r l).1 ≡ some p
check-find_ne x y r a l p h k n c e =
    let (w, f, cw, _, q) = check-filled y r a l k c in
    rw q (claim-find_ne x y w n ∙ find-filled x y r a l w p h c e f)

claim_new :
    (x : ℕ) (l : List Reply)
    → (claim x l).0 ≡ new
    → (p : Reply) × (find x (claim x l).1 ≡ some p) × (p.cb_present ≡ true)
unfolding claim
claim_new x [] e = cc
claim_new x (q ∷ l) e = elim (Bool-cases (q.xid == x)) [
  | inl here ↦ elim (Bool-cases q.cb_present) [
    | inl taken ↦ elim (Option-cases q.buf) [
      | inl n ↦ absurd (ground arith)
      | inr (b, n) ↦ absurd (ground arith)
    ]
    | inr fresh ↦ (record q { cb_present = true }, ground arith, refl)
  ]
  | inr there ↦ let (p, f, t) = claim_new x l (ground arith) in (p, ground arith, t)
]

pub check_new :
    (x r a : ℕ) (l : List Reply)
    → r < x
    → Consecutive a l
    → (check x r l).0 ≡ new
    → (p : Reply) × (find x (check x r l).1 ≡ some p) × (p.cb_present ≡ true)
check_new x r a l h c e =
    let (w, f, cw, _, q) = check-filled x r a l h c in rw q (claim_new x w (rw q at e))

pub find-store :
    (x y : ℕ) (b : Bytes) (l : List Reply) (p : Reply)
    → find x l ≡ some p
    → find x (store y b l) ≡ some (if y == x then record p { buf = some b } else p)
unfolding store
find-store x y b [] p e = cc
find-store x y b (q ∷ l) p e = ground (arith, find-store x y b l p)
