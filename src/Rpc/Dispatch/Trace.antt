-- ===== src/Rpc/Dispatch/Trace.antt =====
-- How often a procedure is run, whatever happens at the server.
use lab.Base.{
  ℕ, ◌+◌, ◌≤◌, ◌≡◌, ap, inl, inr, Bool, true, Option, none, some, List, [], ◌∷◌, ◌++◌, All, arith,
  ltb, nat_key, Option-cases,
}
use lab.Base.Bytes.{Bytes}
use lab.Rpc.Replies.Trace.{Event, executions, IsUnacked, IsWindow, at_most_once}
use lab.Rpc.Dispatch.{Rpcs, Begun, Happening, arrives, returns, serve}
use lab.Rpc.Dispatch.Events.{
  ran, MessageUnacked, Matches, Allowed, serve-Traced, executions-append, All-append,
}

-- The messages of client `c` acknowledge neither `x` nor themselves.
abbrev pub HappeningUnacked : ℕ → ℕ → Happening → Type 0
HappeningUnacked c x (arrives k m) = MessageUnacked c x m
HappeningUnacked c x (returns k h ret rep) = Unit

module _ (registered : ℕ → Bool) (dead : ℕ → Bool) (area : Bytes) where
  -- How often the procedure is run for request `x` of client `c` where `o` is what `serve` comes to.
  abbrev ran_in : ℕ → ℕ → Option (Begun × Rpcs) → ℕ
  ran_in c x none = 0
  ran_in c x (some (e, t)) = ran c x e

  -- The same for all that happens; after the end of the process nothing is run.
  unfoldable pub runs : ℕ → ℕ → List Happening → Rpcs → ℕ
  runs c x [] s = 0
  runs c x (e ∷ es) s =
      ran_in c x (serve registered dead area e s)
      + (elim (serve registered dead area e s) [ none ↦ 0 | some (b, t) ↦ runs c x es t ])

  HappeningUnacked-Allowed :
      (c x : ℕ) (e : Happening)
      → HappeningUnacked c x e
      → Allowed c x (IsUnacked c x) (λ d y r u. u) registered dead area e
  HappeningUnacked-Allowed c x (arrives k m) u = u
  HappeningUnacked-Allowed c x (returns k h ret rep) u = λ b known. tt

  -- All that happens together is a sequence of events of the window.
  runs_traced :
      (c x : ℕ) (es : List Happening) (s : Rpcs)
      → ltb 0 c ≡ true
      → All (HappeningUnacked c x) es
      → (fs : List Event) × All (IsUnacked c x) fs
        × (runs c x es s ≤ executions c x fs s.reply_window_)
  unfolding runs
  runs_traced c x [] s known u = ([], tt, omega arith)
  runs_traced c x (e ∷ es) s known (u, us) =
      let (fs, p, m) =
        serve-Traced c x (IsUnacked c x) (λ d y r u. u) registered dead area e s known
          (HappeningUnacked-Allowed c x e u) in
      elim (Option-cases (serve registered dead area e s)) [
        | inl ends ↦ (fs, p, rw (ends, runs) (omega arith))
        | inr ((b, t), f) ↦
            let m' : Matches c x s.nonce_ s.reply_window_ fs (some (b, t)) = rw f at m in
            let (gs, q, le) = runs_traced c x es t known us in
            (
              fs ++ gs,
              All-append (IsUnacked c x) fs gs p q,
              rw (f, runs)
                  (omega (
                    arith,
                    m'.0,
                    le,
                    ap (executions c x gs) m'.1,
                    executions-append c x fs gs s.reply_window_,
                  )),
            )
      ]

  -- Whatever happens at a server, in any order: messages of any clients that arrive on any
  -- connections, also while procedures are run for earlier ones, and procedures that return
  -- whatever they return. As long as no request of client `c` acknowledges `x` or itself, the
  -- procedure is run for request `x` of `c` at most once. The window of `c` has consecutive numbers
  -- at first, and `c` is a client with at-most-once logic.
  pub runs_at_most_once :
      (c x : ℕ) (es : List Happening) (s : Rpcs)
      → ltb 0 c ≡ true
      → IsWindow c s.reply_window_
      → All (HappeningUnacked c x) es
      → runs c x es s ≤ 1
  runs_at_most_once c x es s known w u =
      let (fs, v, le) = runs_traced c x es s known u in
      omega (arith, le, at_most_once c x fs s.reply_window_ w v)
