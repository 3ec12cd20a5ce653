-- ===== src/Rpc/Replies/Trace.antt =====
-- Sequences of requests and replies, of any clients and in any order, at one server.
use lab.Base.{
  ℕ, ◌+◌, ◌≤◌, ◌<◌, ◌≡◌, refl, sym, subst, ap, ◌⊎◌, inl, inr, Bool, true, false, ◌&&◌, Option, none,
  some, List, [], ◌∷◌, All, arith, Bool-cases, ◌==◌, nat_key, if◌then◌else◌,
}
use lab.Base.Bytes.{Bytes}
use lab.Base.Map.{at, insert, lookup-insert}
use lab.Rpc.Replies.{
  Reply, Verdict, new, saved, check, store, Windows, checkduplicate_and_update, add_reply,
}
use lab.Rpc.Replies.Window.{Consecutive, check_lem, store-Consecutive}
use lab.Rpc.Replies.AtMostOnce.{find, check-find_self, check-find_ne, check_new, find-store}

-- What happens at the window: a request arrives, or the handler of a request is through.
pub data Event : Type 0 where
  request : ℕ → ℕ → ℕ → Event
  reply : ℕ → ℕ → Bytes → Event

unfoldable pub step : Event → Windows → Windows
step (request c y r) ws = (checkduplicate_and_update c y r ws).1
step (reply c y b) ws = add_reply c y b ws

abbrev pub is_new : Verdict → Bool
is_new new = true
is_new v = false

-- 1 where the event makes the server run the handler for request `x` of client `c`.
unfoldable pub starts : ℕ → ℕ → Event → Windows → ℕ
starts c x (request d y r) ws =
    if d == c && y == x && is_new (checkduplicate_and_update d y r ws).0 then 1 else 0
starts c x (reply d y b) ws = 0

unfoldable pub executions : ℕ → ℕ → List Event → Windows → ℕ
executions c x [] ws = 0
executions c x (e ∷ es) ws = starts c x e ws + executions c x es (step e ws)

-- The requests of client `c` acknowledge neither `x` nor themselves.
abbrev pub IsUnacked : ℕ → ℕ → Event → Type 0
IsUnacked c x (request d y r) = d ≡ c → (r < x) × (r < y)
IsUnacked c x (reply d y b) = Unit {0}

abbrev pub IsWindow : ℕ → Windows → Type 0
IsWindow c ws = (a : ℕ) × Consecutive a (at c [] ws)

at-insert :
    (c d : ℕ) (l : List Reply) (ws : Windows)
    → at c [] (insert d l ws) ≡ (if d == c then l else at c [] ws)
at-insert c d l ws = ground (arith, lookup-insert d c l ws)

pub at-insert_self : (c : ℕ) (l : List Reply) (ws : Windows) → at c [] (insert c l ws) ≡ l
at-insert_self c l ws = ground (arith, lookup-insert c c l ws)

-- The event as the window of `c` sees it.
unfoldable pub local_step : ℕ → Event → List Reply → List Reply
local_step c (request d y r) l = if d == c then (check y r l).1 else l
local_step c (reply d y b) l = if d == c then store y b l else l

pub at-step : (c : ℕ) (e : Event) (ws : Windows) → at c [] (step e ws) ≡ local_step c e (at c [] ws)
unfolding step checkduplicate_and_update add_reply local_step
at-step c (request d y r) ws = elim (Bool-cases (d == c)) [
  | inl same ↦
      rw (at-insert c d (check y r (at d [] ws)).1 ws, same)
        (ap (λ i. (check y r (at i [] ws)).1) (let e : d ≡ c = ground arith in e))
  | inr other ↦ rw (at-insert c d (check y r (at d [] ws)).1 ws, other)
]
at-step c (reply d y b) ws = elim (Bool-cases (d == c)) [
  | inl same ↦
      rw (at-insert c d (store y b (at d [] ws)) ws, same)
        (ap (λ i. store y b (at i [] ws)) (let e : d ≡ c = ground arith in e))
  | inr other ↦ rw (at-insert c d (store y b (at d [] ws)) ws, other)
]

pub local_starts : ℕ → ℕ → Event → List Reply → ℕ
local_starts c x (request d y r) l = if d == c && y == x && is_new (check y r l).0 then 1 else 0
local_starts c x (reply d y b) l = 0

starts-local :
    (c x : ℕ) (e : Event) (ws : Windows) → starts c x e ws ≡ local_starts c x e (at c [] ws)
unfolding starts local_starts checkduplicate_and_update
starts-local c x (request d y r) ws = elim (Bool-cases (d == c)) [
  | inl same ↦ rw same (
      ap (λ i. if y == x && is_new (check y r (at i [] ws)).0 then 1 else 0)
        (let e : d ≡ c = ground arith in e))
  | inr other ↦ rw other
]
starts-local c x (reply d y b) ws = refl

pub local_step-Consecutive :
    (c x : ℕ) (e : Event) (a : ℕ) (l : List Reply)
    → IsUnacked c x e
    → Consecutive a l
    → (b : ℕ) × Consecutive b (local_step c e l)
unfolding local_step
local_step-Consecutive c x (request d y r) a l u k = elim (Bool-cases (d == c)) [
  | inl same ↦ rw same (r, (check_lem y r a l (u (ground arith)).1 k).1)
  | inr other ↦ rw other (a, k)
]
local_step-Consecutive c x (reply d y b) a l u k = elim (Bool-cases (d == c)) [
  | inl same ↦ rw same (a, store-Consecutive y a b l k)
  | inr other ↦ rw other (a, k)
]

-- The window holds `x` as taken.
abbrev pub Taken : ℕ → List Reply → Type 0
Taken x l = (p : Reply) × (find x l ≡ some p) × (p.cb_present ≡ true)

saved_not_new : (o : Option Bytes) → is_new (saved o) ≡ false
saved_not_new none = refl
saved_not_new (some b) = refl

pub Taken-again :
    (x y r a : ℕ) (l : List Reply) (p : Reply)
    → r < x
    → y ≡ x
    → Consecutive a l
    → find x l ≡ some p
    → p.cb_present ≡ true
    → (is_new (check y r l).0 ≡ false) × Taken x (check y r l).1
Taken-again x y r a l p h e k f t =
    let (v, f') = check-find_self x r a l p h k f in
    subst (λ i. (is_new (check i r l).0 ≡ false) × Taken x (check i r l).1) (sym e)
      (rw (v, t) (saved_not_new p.buf), (record p { cb_present = true }, f', refl))

-- A request that is taken is not started again, and stays taken.
pub Taken-step :
    (c x : ℕ) (e : Event) (a : ℕ) (l : List Reply)
    → IsUnacked c x e
    → Consecutive a l
    → Taken x l
    → (local_starts c x e l ≡ 0) × Taken x (local_step c e l)
unfolding local_step local_starts
Taken-step c x (request d y r) a l u k (p, f, t) = elim (Bool-cases (d == c)) [
  | inr other ↦ rw other (refl, (p, f, t))
  | inl same ↦ elim (Bool-cases (y == x)) [
    | inr differ ↦
        rw (same, differ)
          (
            refl,
            (
              p,
              check-find_ne x y r a l p (u (ground arith)).0 (u (ground arith)).1 (ground arith) k
                  f,
              t,
            ),
          )
    | inl match ↦
        let (v, held) = Taken-again x y r a l p (u (ground arith)).0 (ground arith) k f t in
        rw (same, match, v) (refl, held)
  ]
]
Taken-step c x (reply d y b) a l u k (p, f, t) = elim (Bool-cases (d == c)) [
  | inl same ↦ rw same (
    refl,
    (if y == x then record p { buf = some b } else p, find-store x y b l p f, ground arith),
  )
  | inr other ↦ rw other (refl, (p, f, t))
]

is_new_eq : (v : Verdict) → is_new v ≡ true → v ≡ new
is_new_eq v h = ground arith

start_cases :
    (c x : ℕ) (e : Event) (a : ℕ) (l : List Reply)
    → IsUnacked c x e
    → Consecutive a l
    → (local_starts c x e l ≡ 0) ⊎ ((local_starts c x e l ≡ 1) × Taken x (local_step c e l))
unfolding local_step local_starts
start_cases c x (request d y r) a l u k = elim (Bool-cases (d == c)) [
  | inr other ↦ inl (rw other)
  | inl same ↦ elim (Bool-cases (y == x)) [
    | inr differ ↦ inl (rw (same, differ))
    | inl match ↦ elim (Bool-cases (is_new (check y r l).0)) [
      | inr old ↦ inl (rw (same, match, old))
      | inl start ↦
          let fresh = check_new y r a l (u (ground arith)).1 k (is_new_eq _ start) in
          inr (
            rw (same, match, start)
              (
                refl,
                subst (λ i. Taken i (check y r l).1) (let e : y ≡ x = ground arith in e) fresh,
              ))
    ]
  ]
]
start_cases c x (reply d y b) a l u k = inl refl

-- As long as no request of client `c` acknowledges `x`, a request that is taken is not started
-- again.
pub never_again :
    (c x : ℕ) (es : List Event) (ws : Windows) (a : ℕ)
    → Consecutive a (at c [] ws)
    → All (IsUnacked c x) es
    → Taken x (at c [] ws)
    → executions c x es ws ≡ 0
unfolding executions
never_again c x [] ws a k u t = refl
never_again c x (e ∷ es) ws a k u t =
    let (zero_now, still) = Taken-step c x e a (at c [] ws) u.0 k t in
    let (b, k') = local_step-Consecutive c x e a (at c [] ws) u.0 k in
    omega (
      arith,
      starts-local c x e ws,
      never_again c x es (step e ws) b (rw (at-step c e ws) k') u.1 (rw (at-step c e ws) still),
    )

-- From a window of consecutive numbers, as long as no request of client `c` acknowledges `x` (or
-- itself), the server runs the handler of request `x` at most once, whatever requests of this
-- and of other clients and whatever replies come in between.
pub at_most_once :
    (c x : ℕ) (es : List Event) (ws : Windows)
    → IsWindow c ws
    → All (IsUnacked c x) es
    → executions c x es ws ≤ 1
unfolding executions
at_most_once c x [] ws w u = omega arith
at_most_once c x (e ∷ es) ws (a, k) u = elim (start_cases c x e a (at c [] ws) u.0 k) [
  | inl idle ↦ omega (arith, starts-local c x e ws, at_most_once c x es (step e ws) (b, next) u.1)
  | inr (one, t) ↦ omega (
    arith,
    starts-local c x e ws,
    never_again c x es (step e ws) b next u.1 (rw (at-step c e ws) t),
  )
]
  where
    shape : (b : ℕ) × Consecutive b (local_step c e (at c [] ws))
    shape = local_step-Consecutive c x e a (at c [] ws) u.0 k

    b : ℕ
    b = shape.0

    next : Consecutive b (at c [] (step e ws))
    next = rw (at-step c e ws) shape.1
