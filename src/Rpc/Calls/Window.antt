-- ===== src/Rpc/Calls/Window.antt =====
-- The window as the set of numbers that it stands for.
use lab.Base.{
  ℕ, ◌+◌, ◌^◌, ◌≤◌, ◌<◌, ◌≡◌, refl, sym, ap, subst, ◌∙◌, inl, inr, ◌≢◌, ℕ_discrete, Bool, false,
  ◌||◌, List, [], ◌∷◌, ◌++◌, All, arith, ltb, leb, ◌==◌, Bool-cases, nat_key,
}
use lab.Rpc.Calls.{XidWindow, insert_xid, slide, compress, update_xid_rep}

abbrev pub member : ℕ → List ℕ → Bool
member z [] = false
member z (y ∷ ys) = y == z || member z ys

-- The numbers whose replies the window reports: all up to its front, and the listed ones.
abbrev pub acked : ℕ → XidWindow → Bool
acked z w = leb z w.front || member z w.rest

abbrev pub Rising : ℕ → List ℕ → Type 0
Rising a [] = Unit {0}
Rising a (y ∷ ys) = (a ≤ y) × Rising y ys

-- The list rises from the front, misses the number after the front, and stays below 2 ^ 32.
pub record IsWindow (w : XidWindow) : Type 0 where
  pub rising : Rising w.front w.rest
  pub gap : member (w.front + 1) w.rest ≡ false
  pub small : All (λ y. y < 2 ^ 32) (w.front ∷ w.rest)

member-append : (z : ℕ) (xs ys : List ℕ) → member z (xs ++ ys) ≡ (member z xs || member z ys)
member-append z [] ys = refl
member-append z (x ∷ xs) ys = ground (arith, member-append z xs ys)

member-insert_xid : (z x : ℕ) (l : List ℕ) → member z (insert_xid x l) ≡ (x == z || member z l)
unfolding insert_xid
member-insert_xid z x [] = refl
member-insert_xid z x (y ∷ l) = ground (arith, member-insert_xid z x l)

insert_xid-Rising : (a x : ℕ) (l : List ℕ) → a ≤ x → Rising a l → Rising a (insert_xid x l)
unfolding insert_xid
insert_xid-Rising a x [] h r = (h, tt)
insert_xid-Rising a x (y ∷ l) h r = elim (Bool-cases (ltb x y)) [
  | inl less ↦ rw less (h, (ground arith, r.1))
  | inr more ↦ rw more (r.0, insert_xid-Rising y x l (ground arith) r.1)
]

insert_xid-small :
    (x : ℕ) (l : List ℕ)
    → x < 2 ^ 32
    → All (λ y. y < 2 ^ 32) l
    → All (λ y. y < 2 ^ 32) (insert_xid x l)
unfolding insert_xid
insert_xid-small x [] h s = (h, tt)
insert_xid-small x (y ∷ l) h s = elim (Bool-cases (ltb x y)) [
  | inl less ↦ rw less (h, s)
  | inr more ↦ rw more (s.0, insert_xid-small x l h s.1)
]

-- All of `l` lies between `a` and `b`.
abbrev Between : ℕ → ℕ → List ℕ → Type 0
Between a b [] = Unit {0}
Between a b (y ∷ l) = (a ≤ y) × (y ≤ b) × Between a b l

Between-mono : (a b c : ℕ) (l : List ℕ) → b ≤ c → Between a b l → Between a c l
Between-mono a b c [] h k = tt
Between-mono a b c (y ∷ l) h k = (k.0, omega arith, Between-mono a b c l h k.2)

Between-snoc : (a b y : ℕ) (l : List ℕ) → a ≤ y → y ≤ b → Between a b l → Between a b (l ++ y ∷ [])
Between-snoc a b y [] h k w = (h, k, tt)
Between-snoc a b y (x ∷ l) h k w = (w.0, w.1, Between-snoc a b y l h k w.2)

Rising-snoc :
    (a b y : ℕ) (l : List ℕ) → a ≤ y → b ≤ y → Between a b l → Rising a l → Rising a (l ++ y ∷ [])
Rising-snoc a b y [] h k w r = (h, tt)
Rising-snoc a b y (x ∷ l) h k w r = (r.0, go x l (omega arith) w.2 r.1)
  where
    go : (c : ℕ) (m : List ℕ) → c ≤ y → Between a b m → Rising c m → Rising c (m ++ y ∷ [])
    go c [] e v q = (e, tt)
    go c (z ∷ m) e v q = (q.0, go z m (omega arith) v.2 q.1)

-- Between `f` and `f + 1`, and not `f + 1`, there is `f` only.
member-stuck :
    (f z : ℕ) (l : List ℕ)
    → Between f (f + 1) l
    → member (f + 1) l ≡ false
    → (leb z f || member z l) ≡ leb z f
member-stuck f z [] w g = ground arith
member-stuck f z (x ∷ l) w g = ground (arith, member-stuck f z l w.2)

slide_hit :
    (f : ℕ) (mid : List ℕ) (y : ℕ)
    → y ≡ f + 1
    → y < 2 ^ 32
    → Between f y mid
    → member y mid ≡ false
    → slide f mid y ≡ record { front = y; rest = [] }
unfolding slide
slide_hit f [] y e s w g = ground arith
slide_hit f (m ∷ ms) y e s w g =
    let same : m ≡ f = ground arith in
    let b : Between m y ms = subst (λ i. Between i y ms) (sym same) w.2 in
    ground (arith, slide_hit m ms y (omega arith) s b)

slide_miss :
    (f : ℕ) (mid : List ℕ) (y : ℕ)
    → f ≤ y
    → y ≢ f + 1
    → y < 2 ^ 32
    → slide f mid y ≡ record { front = f; rest = mid ++ y ∷ [] }
unfolding slide
slide_miss f [] y h n s = ground arith
slide_miss f (m ∷ ms) y h n s = ground arith

small-snoc :
    (l : List ℕ) (y : ℕ)
    → y < 2 ^ 32
    → All (λ y. y < 2 ^ 32) l
    → All (λ y. y < 2 ^ 32) (l ++ y ∷ [])
small-snoc [] y h s = (h, tt)
small-snoc (x ∷ l) y h s = (s.0, small-snoc l y h s.1)

compress_lem :
    (f : ℕ) (mid ys : List ℕ) (hi : ℕ)
    → f ≤ hi
    → Rising f mid
    → Between f hi mid
    → member (f + 1) mid ≡ false
    → Rising hi ys
    → All (λ y. y < 2 ^ 32) (f ∷ mid)
    → All (λ y. y < 2 ^ 32) ys
    → IsWindow (compress f mid ys)
      × ((z : ℕ) → acked z (compress f mid ys) ≡ ((leb z f || member z mid) || member z ys))
unfolding compress
compress_lem f mid [] hi h r w g q s t =
    (record { rising = r; gap = g; small = s }, λ z. ground arith)
compress_lem f mid (y ∷ ys) hi h r w g q s t = elim (ℕ_discrete y (f + 1)) [
  | yes hit ↦
      let e =
        slide_hit f mid y hit t.0 (Between-mono f hi y mid q.0 w)
          (subst (λ i. member i mid ≡ false) (sym hit) g) in
      let (ok, same) = compress_lem y [] ys y (omega arith) tt tt refl q.1 (t.0, tt) t.1 in
      let step : compress f mid (y ∷ ys) ≡ compress y [] ys = rw e in
      let b : Between f (f + 1) mid = Between-mono f hi (f + 1) mid (omega arith) w in
      (
        subst IsWindow (sym step) ok,
        λ z. ap (acked z) step ∙ same z ∙ (ground (arith, member-stuck f z mid b)),
      )
  | no miss ↦
      let e = slide_miss f mid y (omega arith) miss t.0 in
      let (ok, same) =
        compress_lem f (mid ++ y ∷ []) ys y (omega arith)
          (Rising-snoc f hi y mid (omega arith) q.0 w r)
          (Between-snoc f y y mid (omega arith) (omega arith) (Between-mono f hi y mid q.0 w))
          (ground (arith, member-append (f + 1) mid (y ∷ []))) q.1 (s.0, small-snoc mid y t.0 s.1)
          t.1 in
      let step : compress f mid (y ∷ ys) ≡ compress f (mid ++ y ∷ []) ys = rw e in
      (
        subst IsWindow (sym step) ok,
        λ z. ap (acked z) step ∙ same z ∙ (ground (arith, member-append z mid (y ∷ []))),
      )
]

-- On a well-formed window, the update by a 32-bit number adds the number to the set that the
-- window reports, adds nothing else, and keeps the window well formed.
pub update_xid_rep_lem :
    (x : ℕ) (w : XidWindow)
    → x < 2 ^ 32
    → IsWindow w
    → IsWindow (update_xid_rep x w)
      × ((z : ℕ) → acked z (update_xid_rep x w) ≡ (acked z w || x == z))
unfolding update_xid_rep
update_xid_rep_lem x w h k = elim (Bool-cases (leb x w.front)) [
  | inl old ↦ rw old (k, λ z. ground arith)
  | inr fresh ↦
      let low : w.front ≤ x = ground arith in
      let (ok, same) =
        compress_lem w.front [] (insert_xid x w.rest) w.front (omega arith) tt tt refl
          (insert_xid-Rising w.front x w.rest low k.rising) (k.small.0, tt)
          (insert_xid-small x w.rest h k.small.1) in
      rw fresh (ok, λ z. same z ∙ (ground (arith, member-insert_xid z x w.rest)))
]

-- The front is exact: the number behind it has not been received.
pub front_exact : (w : XidWindow) → IsWindow w → acked (w.front + 1) w ≡ false
front_exact w k = ground (arith, k.gap)
