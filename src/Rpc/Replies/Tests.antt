-- ===== src/Rpc/Replies/Tests.antt =====
-- Runs of the window, and the theorems at concrete inputs.
use lab.Base.{none, true, false, ◌≡◌, ◌≤◌, refl, List, [], ◌∷◌, arith, nat_key}
use lab.Base.Map.{lookup}
use lab.Rpc.Replies.{
  new, forgotten, check, Windows, checkduplicate_and_update, drop_acked, fill_front, last_xid,
  fill_back, filled, claim,
}
use lab.Rpc.Replies.Trace.{Event, request, reply, executions, at_most_once}
use lab.Rpc.Replies.Stale.{acknowledged_runs_again}

-- Request 2 overtakes request 1; both are started, and the copy of 2 gets its saved reply.
abbrev overtaken : List Event
overtaken = request 9 2 0 ∷ request 9 1 0 ∷ reply 9 2 (65 ∷ []) ∷ request 8 2 0 ∷ request 9 2 0 ∷ []

at_most_once_example : executions 9 2 overtaken [] ≤ 1
unfolding lookup
at_most_once_example = at_most_once 9 2 overtaken [] (0, tt) (omega arith)

acknowledged_runs_again_example :
    (checkduplicate_and_update 9 5 4 (checkduplicate_and_update 9 7 6 []).1).0 ≡ new
unfolding lookup
acknowledged_runs_again_example =
    acknowledged_runs_again 9 5 4 7 6 [] (0, tt) (omega arith) (omega arith) (omega arith)

-- A request that acknowledges itself is refused.
check_forgotten : (check 2 3 (check 5 0 []).1).0 ≡ forgotten
unfolding check filled drop_acked fill_front last_xid fill_back claim
check_forgotten = refl

-- Request 2 of client 9 is being handled, and 1 has not come.
abbrev handling : Windows
handling =
    (
      9,
      (record { xid = 1; cb_present = false; buf = none })
          ∷ (record { xid = 2; cb_present = true; buf = none })
          ∷ [],
    )
    ∷ []
