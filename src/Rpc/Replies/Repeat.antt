-- ===== src/Rpc/Replies/Repeat.antt =====
-- What a repeated request is answered.
use lab.Base.{ℕ, ◌<◌, ◌≡◌, ◌∙◌, refl, some, [], List, All, arith, nat_key}
use lab.Base.Bytes.{Bytes}
use lab.Base.Map.{at}
use lab.Rpc.Replies.{done, store, Windows, checkduplicate_and_update, add_reply}
use lab.Rpc.Replies.Window.{store-Consecutive}
use lab.Rpc.Replies.AtMostOnce.{check-find_self, find-store}
use lab.Rpc.Replies.Trace.{Event, IsWindow, Taken, at-insert_self}
use lab.Rpc.Replies.Held.{steps, IsQuiet, Answered, Answered-steps}

add_reply-Answered :
    (c x : ℕ) (b : Bytes) (ws : Windows)
    → IsWindow c ws
    → Taken x (at c [] ws)
    → IsWindow c (add_reply c x b ws) × Answered x b (at c [] (add_reply c x b ws))
unfolding add_reply
add_reply-Answered c x b ws (a, k) (p, f, t) =
    let l = at c [] ws in
    let held = find-store x x b l p f in
    rw (at-insert_self c (store x b l) ws)
      ((a, store-Consecutive x a b l k), (record p { buf = some b }, ground (arith, held), t, refl))

-- In a window of consecutive numbers that has request `x` as taken, once the handler's reply is
-- added, and whatever happens then that neither acknowledges `x` nor replies to it again, a
-- repetition of the request with `xid_rep` below `x` gets this reply.
pub repeated_gets_reply :
    (c x r : ℕ) (b : Bytes) (es : List Event) (ws : Windows)
    → IsWindow c ws
    → Taken x (at c [] ws)
    → All (IsQuiet c x) es
    → r < x
    → (checkduplicate_and_update c x r (steps es (add_reply c x b ws))).0 ≡ done b
unfolding checkduplicate_and_update
repeated_gets_reply c x r b es ws w taken u h =
    let (v, saved) = add_reply-Answered c x b ws w taken in
    let ((a, k), (p, f, t, e)) = Answered-steps c x b es (add_reply c x b ws) u v saved in
    (check-find_self x r a (at c [] (steps es (add_reply c x b ws))) p h k f).0 ∙ rw (t, e)
