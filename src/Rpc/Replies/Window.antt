-- ===== src/Rpc/Replies/Window.antt =====
-- The shape of a window: after a request it holds one reply for each number from `xid_rep + 1` on.
use lab.Base.{
  ℕ, zero, suc, ◌+◌, ◌-◌, ◌≤◌, ◌<◌, ◌≡◌, refl, sym, subst, ap, nat_key, ◌==◌, ◌⊎◌, inl, inr, false,
  Option, none, some, List, [], ◌∷◌, ◌++◌, length, length-append, arith, ltb, Bool-cases,
}
use lab.Base.Bytes.{Bytes}
use lab.Rpc.Replies.{
  Reply, new_reply, Verdict, new, inprogress, done, drop_acked, first_xid, prev_xid, saved,
  fill_front, last_xid, fill_back, filled, check, claim, starts_after, store,
}

-- The replies bear the numbers `a + 1`, `a + 2`, and so on.
abbrev pub Consecutive : ℕ → List Reply → Type 0
Consecutive a [] = Unit {0}
Consecutive a (p ∷ ps) = (p.xid ≡ suc a) × Consecutive (suc a) ps

pub drop_acked-Consecutive :
    (r a : ℕ) (l : List Reply)
    → Consecutive a l
    → (drop_acked r l ≡ []) ⊎ ((b : ℕ) × (r ≤ b) × Consecutive b (drop_acked r l))
unfolding drop_acked
drop_acked-Consecutive r a [] c = inl refl
drop_acked-Consecutive r a (p ∷ ps) c = elim (Bool-cases (ltb r p.xid)) [
  | inl keep ↦ rw keep (inr (a, ground arith, c))
  | inr drop ↦ rw drop (drop_acked-Consecutive r (suc a) ps c.1)
]

Consecutive-eq : (a b : ℕ) (l : List Reply) → a ≡ b → Consecutive a l → Consecutive b l
Consecutive-eq a b l e c = subst (λ i. Consecutive i l) e c

fill_front-Consecutive :
    (r f : ℕ) (l : List Reply) → r ≤ f → Consecutive f l → Consecutive r (fill_front r f l)
unfolding fill_front
fill_front-Consecutive r zero l h c = Consecutive-eq 0 r l (omega arith) c
fill_front-Consecutive r (suc f) l h c = elim (Bool-cases (ltb r (suc f))) [
  | inl more ↦ rw more (fill_front-Consecutive r f (new_reply (suc f) ∷ l) (ground arith) (refl, c))
  | inr stop ↦ rw stop (Consecutive-eq (suc f) r l (ground arith) c)
]

length-fill_front :
    (r f : ℕ) (l : List Reply) → r ≤ f → length (fill_front r f l) ≡ (f - r) + length l
unfolding fill_front
length-fill_front r zero l h = omega arith
length-fill_front r (suc f) l h = ground (arith, length-fill_front r f (new_reply (suc f) ∷ l))

last_xid-Consecutive :
    (a : ℕ) (p : Reply) (l : List Reply)
    → Consecutive a (p ∷ l)
    → last_xid (p ∷ l) ≡ some (a + suc (length l))
unfolding last_xid
last_xid-Consecutive a p [] c = ground arith
last_xid-Consecutive a p (q ∷ l) c = ground (arith, last_xid-Consecutive (suc a) q l)

Consecutive-snoc :
    (a : ℕ) (l : List Reply) (p : Reply)
    → p.xid ≡ suc (a + length l)
    → Consecutive a l
    → Consecutive a (l ++ p ∷ [])
Consecutive-snoc a [] p e c = (omega arith, tt)
Consecutive-snoc a (q ∷ l) p e c = (c.0, Consecutive-snoc (suc a) l p (omega arith) c.1)

fill_back-Consecutive :
    (a n last : ℕ) (l : List Reply)
    → last ≡ a + length l
    → Consecutive a l
    → Consecutive a (fill_back n last l) × (length (fill_back n last l) ≡ n + length l)
unfolding fill_back
fill_back-Consecutive a zero last l e c = (c, omega arith)
fill_back-Consecutive a (suc n) last l e c =
    let longer = length-append l (new_reply (suc last) ∷ []) in
    let (shape, size) =
      fill_back-Consecutive a n (suc last) (l ++ new_reply (suc last) ∷ []) (omega (arith, longer))
        (Consecutive-snoc a l (new_reply (suc last)) (omega arith) c) in
    (shape, omega (arith, size, longer))

-- The gaps of `l` can be filled from `f` downwards, and behind.
abbrev Full : ℕ → ℕ → ℕ → List Reply → Type 0
Full x r f l =
    (w : List Reply) × (elim (last_xid (fill_front r f l)) [
      | none ↦ none
      | some last ↦ some (fill_back (x - last) last (fill_front r f l))
    ]
      ≡ some w)
    × Consecutive r w
    × (x ≤ r + length w)

fill_lem : (x r b : ℕ) (l : List Reply) → r ≤ b → r < b + length l → Consecutive b l → Full x r b l
fill_lem x r b l h k c = go (fill_front r b l) refl
  where
    go :
        (f : List Reply)
        → fill_front r b l ≡ f
        → (w : List Reply) × (elim (last_xid f) [
          | none ↦ none
          | some last ↦ some (fill_back (x - last) last f)
        ]
            ≡ some w)
          × Consecutive r w
          × (x ≤ r + length w)
    go [] e = absurd (omega (arith, length-fill_front r b l, ap length e))
    go (p ∷ f) e =
        let c' : Consecutive r (p ∷ f) =
          subst (Consecutive r) e (fill_front-Consecutive r b l h c) in
        let (shape, size) =
          fill_back-Consecutive r (x - (r + suc (length f))) (r + suc (length f)) (p ∷ f) refl c' in
        (
          fill_back (x - (r + suc (length f))) (r + suc (length f)) (p ∷ f),
          rw (last_xid-Consecutive r p f c'),
          shape,
          omega (arith, size),
        )

-- A request whose own number is not acknowledged by it finds a full window.
filled-kept :
    (x r : ℕ) (k : List Reply)
    → r < x
    → (k ≡ []) ⊎ ((b : ℕ) × (r ≤ b) × Consecutive b k)
    → Full x r (first_xid x k) k
filled-kept x r [] h c = fill_lem x r x [] (omega arith) (omega arith) tt
filled-kept x r (p ∷ ps) h (inl e) = absurd (omega (arith, ap length e))
filled-kept x r (p ∷ ps) h (inr (b, le, c)) =
    subst (λ f. Full x r f (p ∷ ps)) (sym (ap prev_xid c.0))
      (fill_lem x r b (p ∷ ps) le (omega arith) c)

pub filled-Consecutive :
    (x r a : ℕ) (l : List Reply)
    → r < x
    → Consecutive a l
    → (w : List Reply) × (filled x r l ≡ some w) × Consecutive r w × (x ≤ r + length w)
unfolding filled
filled-Consecutive x r a l h c = filled-kept x r (drop_acked r l) h (drop_acked-Consecutive r a l c)

claim-Consecutive : (x a : ℕ) (l : List Reply) → Consecutive a l → Consecutive a (claim x l).1
unfolding claim
claim-Consecutive x a [] c = tt
claim-Consecutive x a (p ∷ ps) c = ground (arith, claim-Consecutive x (suc a) ps c.1)

-- The verdict on a number that the window holds.
abbrev pub IsAnswer : Verdict → Type 0
IsAnswer new = Unit {0}
IsAnswer inprogress = Unit {0}
IsAnswer (done b) = Unit {0}
IsAnswer v = ⊥

saved-IsAnswer : (b : Option Bytes) → IsAnswer (saved b)
saved-IsAnswer none = tt
saved-IsAnswer (some b) = tt

claim-IsAnswer :
    (x a : ℕ) (l : List Reply) → Consecutive a l → a < x → x ≤ a + length l → IsAnswer (claim x l).0
unfolding claim
claim-IsAnswer x a [] c h k = absurd (omega arith)
claim-IsAnswer x a (p ∷ ps) c h k = elim (Bool-cases (p.xid == x)) [
  | inl here ↦ rw here (elim (Bool-cases p.cb_present) [
    | inl taken ↦ rw taken (saved-IsAnswer p.buf)
    | inr fresh ↦ rw fresh tt
  ])
  | inr there ↦ rw there (claim-IsAnswer x (suc a) ps c.1 (ground arith) (ground arith))
]

starts_after-Consecutive :
    (x a : ℕ) (l : List Reply) → Consecutive a l → a < x → starts_after x l ≡ false
starts_after-Consecutive x a [] c h = refl
starts_after-Consecutive x a (p ∷ ps) c h = ground arith

-- What `check` returns, in terms of the filled window.
pub check-filled :
    (x r a : ℕ) (l : List Reply)
    → r < x
    → Consecutive a l
    → (w : List Reply) × (filled x r l ≡ some w)
      × Consecutive r w
      × (x ≤ r + length w)
      × (check x r l ≡ claim x w)
unfolding check
check-filled x r a l h c =
    let (w, e, cw, k) = filled-Consecutive x r a l h c in
    (w, e, cw, k, rw (e, check, starts_after-Consecutive x r w cw h))

-- On a window of consecutive numbers, a request with `xid_rep < xid` is answered by `NEW`,
-- `INPROGRESS` or `DONE`, and leaves a window of consecutive numbers from `xid_rep + 1` on.
pub check_lem :
    (x r a : ℕ) (l : List Reply)
    → r < x
    → Consecutive a l
    → IsAnswer (check x r l).0 × Consecutive r (check x r l).1
check_lem x r a l h c =
    let (w, e, cw, k, q) = check-filled x r a l h c in
    rw q (claim-IsAnswer x r w cw h k, claim-Consecutive x r w cw)

pub store-Consecutive :
    (x a : ℕ) (b : Bytes) (l : List Reply) → Consecutive a l → Consecutive a (store x b l)
unfolding store
store-Consecutive x a b [] c = tt
store-Consecutive x a b (p ∷ ps) c = ground (arith, store-Consecutive x (suc a) b ps c.1)

pub claim-length : (x : ℕ) (l : List Reply) → length (claim x l).1 ≡ length l
unfolding claim
claim-length x [] = refl
claim-length x (p ∷ l) = ground (arith, claim-length x l)
