-- ===== src/Paxos/Acceptor/Tests.antt =====
-- The theorems on the acceptor at concrete inputs.
use lab.Base.{All, some, ℕ, ◌≡◌, refl, List, [], ◌∷◌, true, arith, nat_key}
use lab.Base.Bytes.{Bytes, str_key}
use lab.Base.Map.{lookup}
use lab.Protocol.Paxos.{Preparearg, Prepareres, Acceptarg, Decidearg}
use lab.Paxos.Acceptor.{
  Acceptor, ok, err, acceptor, blank, preparereq, acceptreq, decidereq, Event, prepares, accepts,
  decides, run,
}
use lab.Paxos.Acceptor.Log.{file_text, start_on}
use lab.Paxos.Acceptor.LogText.{IsWord}
use lab.Paxos.Acceptor.Plain.{BringsPlain}
use lab.Paxos.Acceptor.Restart.{Same, restart_restores}
use lab.Paxos.Acceptor.Answers.{restart_answers}
use lab.Paxos.Acceptor.Promise.{promise_kept}
use lab.Paxos.Acceptor.Decided.{decision_final, missed_instance, late_accept_leaks}

abbrev a : Bytes
a = 97 ∷ []

abbrev b : Bytes
b = 98 ∷ []

abbrev c : Bytes
c = 99 ∷ []

abbrev view : Bytes
view = 118 ∷ []

abbrev ask : ℕ → ℕ → Preparearg
ask i n = record { instance_no = i; n = record { n = n; m = b }; v = [] }

abbrev tell : ℕ → ℕ → Acceptarg
tell i n = record { instance_no = i; n = record { n = n; m = b }; v = view }

abbrev blank_reply : Prepareres
blank_reply = record { oldinstance = 0; accept = 0; n_a = record { n = 0; m = [] }; v_a = [] }

-- Node "a" after a promise and an accepted value, and after a decision and a promise.
abbrev history : List Event
history = prepares (ask 2 3) blank_reply ∷ accepts (tell 2 3) ∷ []

abbrev started : Acceptor
started = blank true a []

-- "b" is a name, and the calls bring what a log can hold.
named : IsWord b
named = ((λ e. cc e), (refl, tt))

plain : All BringsPlain history
plain = ((omega arith, named), (((omega arith, named), (refl, tt)), tt))

abbrev before_crash : Acceptor
before_crash = run history (acceptor true true a view [])

restart_restores_example :
    (t : Acceptor) × (start_on true true a view (file_text before_crash.l) ≡ some t)
    × Same before_crash t
restart_restores_example = restart_restores true true a view history (refl, tt) plain

restart_answers_example :
    (t : Acceptor) × (start_on true true a view (file_text before_crash.l) ≡ some t)
    × ((preparereq (ask 2 2) blank_reply before_crash).1 ≡ (preparereq (ask 2 2) blank_reply t).1)
    × ((acceptreq (tell 2 2) before_crash).0 ≡ (acceptreq (tell 2 2) t).0)
restart_answers_example =
    restart_answers true true a view history (ask 2 2) blank_reply (tell 2 2) (refl, tt) plain
      (λ e. absurd (omega arith)) (λ e. absurd (omega arith))

promise_kept_example :
    (acceptreq
        (tell 1 2)
        (run (accepts (tell 1 4) ∷ []) (preparereq (ask 1 3) blank_reply started).2)
      ≡ (err, run (accepts (tell 1 4) ∷ []) (preparereq (ask 1 3) blank_reply started).2))
    × ((preparereq
          (ask 1 3)
          blank_reply
          (run (accepts (tell 1 4) ∷ []) (preparereq (ask 1 3) blank_reply started).2)).1.accept
        ≡ 0)
    × ((preparereq
          (ask 1 3)
          blank_reply
          (run (accepts (tell 1 4) ∷ []) (preparereq (ask 1 3) blank_reply started).2)).2
        ≡ run (accepts (tell 1 4) ∷ []) (preparereq (ask 1 3) blank_reply started).2)
unfolding blank
promise_kept_example =
    promise_kept (ask 1 3) blank_reply started (accepts (tell 1 4) ∷ []) (ask 1 3) blank_reply
      (tell 1 2) refl refl (tt, tt) refl refl refl

abbrev decision : Decidearg
decision = record { instance_no = 2; v = view }

abbrev rival : Event
rival = decides (record { instance_no = 2; v = b })

decision_final_example :
    ((preparereq
        (ask 2 3)
        blank_reply
        (run (rival ∷ history) (decidereq decision started).1)).1.oldinstance
      ≡ 1)
    × ((preparereq
          (ask 2 3)
          blank_reply
          (run (rival ∷ history) (decidereq decision started).1)).1.v_a
        ≡ view)
unfolding blank
decision_final_example =
    decision_final decision started (rival ∷ history) (ask 2 3) blank_reply (omega arith) refl

missed_instance_example :
    ((preparereq (ask 1 3) blank_reply (decidereq decision started).1).1.oldinstance ≡ 1)
    × ((preparereq (ask 1 3) blank_reply (decidereq decision started).1).1.v_a ≡ [])
unfolding blank lookup
missed_instance_example =
    missed_instance (ask 1 3) blank_reply decision started (omega arith) (omega arith) refl

late_accept_leaks_example :
    ((acceptreq (tell 2 3) (decidereq decision started).1).0 ≡ ok)
    × ((preparereq
          (ask 3 4)
          blank_reply
          (acceptreq (tell 2 3) (decidereq decision started).1).1).1.accept
        ≡ 1)
    × ((preparereq
          (ask 3 4)
          blank_reply
          (acceptreq (tell 2 3) (decidereq decision started).1).1).1.n_a
        ≡ record { n = 3; m = b })
    × ((preparereq
          (ask 3 4)
          blank_reply
          (acceptreq (tell 2 3) (decidereq decision started).1).1).1.v_a
        ≡ view)
unfolding blank
late_accept_leaks_example =
    late_accept_leaks decision (tell 2 3) (ask 3 4) blank_reply started (omega arith) (omega arith)
      (omega arith) (omega arith) (omega arith)
