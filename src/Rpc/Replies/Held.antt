-- ===== src/Rpc/Replies/Held.antt =====
-- What the window of a client holds on to, whatever happens in between.
use lab.Base.{
  ℕ, ◌<◌, ◌≡◌, ◌≢◌, refl, sym, subst, inl, inr, true, false, some, List, [], ◌∷◌, All, arith,
  Bool-cases, ◌==◌, nat_key,
}
use lab.Base.Bytes.{Bytes}
use lab.Base.Map.{at}
use lab.Rpc.Replies.{Reply, check, Windows}
use lab.Rpc.Replies.Window.{Consecutive}
use lab.Rpc.Replies.AtMostOnce.{find, check-find_self, check-find_ne, find-store}
use lab.Rpc.Replies.Trace.{
  Event, request, reply, step, IsUnacked, IsWindow, Taken, local_step, at-step,
  local_step-Consecutive, Taken-step,
}

-- The windows after the events.
abbrev pub steps : List Event → Windows → Windows
steps [] ws = ws
steps (e ∷ es) ws = steps es (step e ws)

-- The event is no reply to request `x` of client `c`, and no request of `c` that acknowledges `x`
-- or itself.
abbrev pub IsQuiet : ℕ → ℕ → Event → Type 0
IsQuiet c x (request d y r) = d ≡ c → (r < x) × (r < y)
IsQuiet c x (reply d y b) = d ≡ c → y ≢ x

quiet-Unacked : (c x : ℕ) (e : Event) → IsQuiet c x e → IsUnacked c x e
quiet-Unacked c x (request d y r) q = q
quiet-Unacked c x (reply d y b) q = tt

-- The window holds the reply `b` to `x`.
abbrev pub Answered : ℕ → Bytes → List Reply → Type 0
Answered x b l = (p : Reply) × (find x l ≡ some p) × (p.cb_present ≡ true) × (p.buf ≡ some b)

Answered-step :
    (c x : ℕ) (b : Bytes) (e : Event) (a : ℕ) (l : List Reply)
    → IsQuiet c x e
    → Consecutive a l
    → Answered x b l
    → Answered x b (local_step c e l)
unfolding local_step
Answered-step c x b (request d y r) a l u k (p, f, t, h) = elim (Bool-cases (d == c)) [
  | inr other ↦ rw other (p, f, t, h)
  | inl same ↦
      let low = u (ground arith) in
      elim (Bool-cases (y == x)) [
        | inr differ ↦ rw same (p, check-find_ne x y r a l p low.0 low.1 (ground arith) k f, t, h)
        | inl match ↦
            let e : y ≡ x = ground arith in
            let held : Answered x b (check x r l).1 =
              (record p { cb_present = true }, (check-find_self x r a l p low.0 k f).1, refl, h) in
            rw same (subst (λ i. Answered x b (check i r l).1) (sym e) held)
      ]
]
Answered-step c x b (reply d y b') a l u k (p, f, t, h) = elim (Bool-cases (d == c)) [
  | inr other ↦ rw other (p, f, t, h)
  | inl same ↦
      let differ : (y == x) ≡ false = ground (arith, u) in
      rw same (p, (let g = find-store x y b' l p f in rw differ at g), t, h)
]

-- What each event keeps, the events keep.
keeps :
    (c x : ℕ) (Q : List Reply → Type 0)
    → ((e : Event) (a : ℕ) (l : List Reply)
        → IsQuiet c x e
        → Consecutive a l
        → Q l
        → Q (local_step c e l))
    → (es : List Event) (ws : Windows) → All (IsQuiet c x) es
    → IsWindow c ws
    → Q (at c [] ws)
    → IsWindow c (steps es ws) × Q (at c [] (steps es ws))
keeps c x Q keep [] ws u w q = (w, q)
keeps c x Q keep (e ∷ es) ws u (a, k) q =
    let (b, k') = local_step-Consecutive c x e a (at c [] ws) (quiet-Unacked c x e u.0) k in
    keeps c x Q keep es (step e ws) u.1 (b, rw (at-step c e ws) k')
      (rw (at-step c e ws) (keep e a (at c [] ws) u.0 k q))

-- A request that is taken stays taken.
pub Taken-steps :
    (c x : ℕ) (es : List Event) (ws : Windows)
    → All (IsQuiet c x) es
    → IsWindow c ws
    → Taken x (at c [] ws)
    → IsWindow c (steps es ws) × Taken x (at c [] (steps es ws))
Taken-steps c x =
    keeps c x (Taken x) (λ e a l u k t. (Taken-step c x e a l (quiet-Unacked c x e u) k t).1)

-- A reply that is saved stays saved.
pub Answered-steps :
    (c x : ℕ) (b : Bytes) (es : List Event) (ws : Windows)
    → All (IsQuiet c x) es
    → IsWindow c ws
    → Answered x b (at c [] ws)
    → IsWindow c (steps es ws) × Answered x b (at c [] (steps es ws))
Answered-steps c x b = keeps c x (Answered x b) (Answered-step c x b)
