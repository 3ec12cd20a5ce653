-- ===== src/Rpc/Calls/Pending.antt =====
-- What the header of a request says after any sequence of calls and replies.
use lab.Base.{
  ℕ, ◌+◌, ◌^◌, ◌≤◌, ◌<◌, ◌≡◌, refl, ◌∙◌, Bool, true, false, ◌||◌, List, [], ◌∷◌, All, arith, ◌==◌,
  nat_key,
}
use lab.Rpc.Calls.{Client, init, start_call, finish_call, got_reply}
use lab.Rpc.Calls.Window.{acked, IsWindow, update_xid_rep_lem}

-- A call begins, a call ends, a reply comes in; `finish` and `reply` name the request.
pub data Event : Type 0 where
  start : Event
  finish : ℕ → Event
  reply : ℕ → Event

unfoldable pub step : Event → Client → Client
step start s = (start_call s).0
step (finish x) s = finish_call x s
step (reply x) s = got_reply x s

unfoldable pub run : List Event → Client → Client
run [] s = s
run (e ∷ es) s = run es (step e s)

-- Request numbers are 32-bit.
abbrev pub Fits : Event → Type 0
Fits start = Unit {0}
Fits (finish x) = x < 2 ^ 32
Fits (reply x) = x < 2 ^ 32

-- Some event of the sequence ends or answers request `z`.
abbrev pub answered : ℕ → List Event → Bool
answered z [] = false
answered z (start ∷ es) = answered z es
answered z (finish x ∷ es) = x == z || answered z es
answered z (reply x ∷ es) = x == z || answered z es

run-acked :
    (es : List Event) (s : Client)
    → All Fits es
    → IsWindow s.xid_rep_window
    → IsWindow (run es s).xid_rep_window
      × ((z : ℕ) → acked z (run es s).xid_rep_window ≡ (acked z s.xid_rep_window || answered z es))
unfolding run step start_call finish_call got_reply
run-acked [] s f w = (w, λ z. ground arith)
run-acked (start ∷ es) s f w = run-acked es (start_call s).0 f.1 w
run-acked (finish x ∷ es) s f w =
    let (ok, same) = update_xid_rep_lem x s.xid_rep_window f.0 w in
    let (ok', same') = run-acked es (finish_call x s) f.1 ok in
    (ok', λ z. same' z ∙ (ground (arith, same z)))
run-acked (reply x ∷ es) s f w =
    let (ok, same) = update_xid_rep_lem x s.xid_rep_window f.0 w in
    let (ok', same') = run-acked es (got_reply x s) f.1 ok in
    (ok', λ z. same' z ∙ (ground (arith, same z)))

-- In any history of 32-bit numbers, a request number that is neither answered nor given up is
-- not acknowledged by the next header.
pub unanswered_unacked :
    (es : List Event) (x : ℕ)
    → All Fits es
    → 0 < x
    → answered x es ≡ false
    → (start_call (run es init)).1.xid_rep < x
unfolding start_call
unanswered_unacked es x f h a =
    let (ok, same) =
      run-acked es init f (record { rising = tt; gap = refl; small = (omega arith, tt) }) in
    ground (arith, same x)

-- In any history of 32-bit numbers, the next header acknowledges exactly the largest number up
-- to which every request is answered or given up.
pub header_exact :
    (es : List Event)
    → All Fits es
    → let r = (start_call (run es init)).1.xid_rep in
      (answered (r + 1) es ≡ false) × ((z : ℕ) → 0 < z → z ≤ r → answered z es ≡ true)
unfolding start_call
header_exact es f =
    let (ok, same) =
      run-acked es init f (record { rising = tt; gap = refl; small = (omega arith, tt) }) in
    let r = (run es init).xid_rep_window.front in
    (ground (arith, same (r + 1), ok.gap), λ z h k. ground (arith, same z))
