-- ===== src/Rpc/Calls/Tests.antt =====
-- Runs of the client's window, and the theorems at concrete inputs.
use lab.Base.{ℕ, ◌≡◌, ◌<◌, ◌||◌, false, refl, List, [], ◌∷◌, arith, ◌==◌, nat_key}
use lab.Rpc.Calls.{XidWindow, init, start_call, update_xid_rep, insert_xid, slide, compress}
use lab.Rpc.Calls.Window.{acked, IsWindow, update_xid_rep_lem, front_exact}
use lab.Rpc.Calls.Pending.{Event, start, finish, reply, run, unanswered_unacked}

-- The replies of 3 and 1 are in, 2 is pending.
abbrev gap : XidWindow
gap = record { front = 1; rest = 3 ∷ [] }

update_xid_rep_gap : update_xid_rep 2 gap ≡ record { front = 3; rest = [] }
unfolding update_xid_rep insert_xid slide compress
update_xid_rep_gap = refl

update_xid_rep_lem_example :
    IsWindow (update_xid_rep 2 gap)
    × ((z : ℕ) → acked z (update_xid_rep 2 gap) ≡ (acked z gap || 2 == z))
update_xid_rep_lem_example =
    update_xid_rep_lem 2 gap (omega arith)
      (record { rising = omega arith; gap = refl; small = omega arith })

abbrev history : List Event
history = start ∷ start ∷ start ∷ reply 3 ∷ reply 1 ∷ finish 3 ∷ []

unanswered_unacked_example : (start_call (run history init)).1.xid_rep < 2
unanswered_unacked_example = unanswered_unacked history 2 (omega arith) (omega arith) refl

front_exact_example : acked 2 gap ≡ false
front_exact_example =
    front_exact gap (record { rising = omega arith; gap = refl; small = omega arith })
