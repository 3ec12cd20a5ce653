-- ===== src/Rsm/Tests.antt =====
-- The theorems on the replicated state machine at concrete inputs. The service is a number, which
-- procedure 7 counts up.
use lab.Base.{
  ℕ, ◌+◌, ◌≡◌, refl, inl, inr, true, false, Option, none, some, [], ◌∷◌, arith, nat_key, ◌==◌,
  if◌then◌else◌, some_inj, Bool-cases,
}
use lab.Base.Bytes.{Bytes, str_key}
use lab.Base.Map.{lookup}
use lab.Paxos.Proposer.{isamember}
use lab.Config.{Config, members, value, words, get_curview, get_view}
use lab.Config.Views.{InView}
use lab.Rsm.{Rsm, StateTransfer, decide_view, vs_eq}
use lab.Rsm.Calls.{ClientStatus, busy, client_invoke}
use lab.Rsm.Replicas.{Executes, World, InStep, call_node}
use lab.Rsm.Agreement.{Agrees, replicas_agree}
use lab.Rsm.Transfer.{recover, transferreq, recover_primary}
use lab.Rsm.Recovery.{Others, recovered, done_all, view_change_ends}
use lab.Rsm.ViewChange.{view_decided}

abbrev a : Bytes
a = 97 ∷ []

abbrev b : Bytes
b = 98 ∷ []

-- View 1 with the members "a" and "b", at node `me`.
abbrev first_view : Bytes → Config
first_view me = record {
  acc = record {
    me = me;
    cfg = true;
    n_h = record { n = 0; m = [] };
    n_a = record { n = 0; m = [] };
    v_a = [];
    instance_h = 1;
    values = (1, value (a ∷ b ∷ [])) ∷ [];
    l = [];
    paxos_commits = [];
  };
  pro = record {
    me = me;
    break1 = false;
    break2 = false;
    stable = true;
    c_nodes = [];
    c_v = [];
    my_n = record { n = 0; m = me };
  };
  myvid = 1;
  me = me;
  mems = a ∷ b ∷ [];
  deleted = [];
}

-- A node of the view at request 5, with count 4, and "a" as the primary.
abbrev node_at : Bytes → Rsm ℕ
node_at me = record {
  cfg = first_view me;
  myvs = record { vid = 1; seqno = 5 };
  last_myvs = record { vid = 1; seqno = 4 };
  primary = a;
  inviewchange = false;
  waiting_for_transfer = [];
  app = 4;
}

abbrev procs : ℕ → Option (Bytes → ℕ → ℕ × Bytes × ℕ)
procs n = if n == 7 then some (λ req count. (0, 111 ∷ [], count + 1)) else none

abbrev counts_up : Executes procs 7 [] 4
counts_up = record {
  fn = λ req count. (0, 111 ∷ [], count + 1);
  there = refl;
  status_fits = omega arith;
  reply_fits = omega arith;
}

abbrev backup : World procs
backup = (b, node_at b) ∷ []

backup-InStep : InStep procs (record { vid = 1; seqno = 5 }) 4 5 backup
unfolding lookup
backup-InStep node r e = elim (Bool-cases (b == node)) [
  | inl here ↦
      let same : node_at b ≡ r = some_inj (rw here at e) in inl (rw⁻¹ same (refl, refl, refl))
  | inr other ↦ absurd (cc (rw other at e))
]

replicas_agree_example :
    (out : ClientStatus × Bytes × Rsm ℕ × World procs) × (client_invoke procs
        (call_node procs (λ node. true))
        7
        []
        []
        (node_at a)
        backup
      ≡ some out)
    × Agrees procs 7 [] (node_at a) counts_up out
replicas_agree_example =
    replicas_agree procs (λ node. true) 7 [] [] (node_at a) backup (omega arith) counts_up
      backup-InStep

-- A service that is its own message.
abbrev bytes_transfer : StateTransfer Bytes
bytes_transfer = record {
  marshal_state = λ x. x;
  unmarshal_state = λ x old. some x;
  Fits = λ x. Unit;
  Ready = λ x. Unit;
  rebuilds = λ x y f r. refl;
}

-- A node of the view in a view change, at request `n` and with the service in state `app`.
abbrev node_with : Bytes → ℕ → Bytes → Rsm Bytes
node_with me n app = record {
  cfg = first_view me;
  myvs = record { vid = 1; seqno = n };
  last_myvs = record { vid = 1; seqno = 0 };
  primary = a;
  inviewchange = true;
  waiting_for_transfer = [];
  app = app;
}

recovered_example :
    (t : Rsm Bytes) × (recover bytes_transfer
        (some
          (transferreq bytes_transfer (record { vid = 1; seqno = 3 }) [] (node_with a 5 (77 ∷ []))))
        true
        (node_with b 3 [])
      ≡ some t)
    × (t.myvs ≡ record { vid = 1; seqno = 5 })
    × (t.inviewchange ≡ false)
    × (vs_eq (record { vid = 1; seqno = 3 }) (record { vid = 1; seqno = 5 }) ≡ false
        → t.app ≡ 77 ∷ [])
    × (vs_eq (record { vid = 1; seqno = 3 }) (record { vid = 1; seqno = 5 }) ≡ true → t.app ≡ [])
recovered_example =
    recovered bytes_transfer (node_with a 5 (77 ∷ [])) (node_with b 3 []) [] tt tt refl refl

-- The view of "a" and "b", where an earlier view change waits for "c" too.
abbrev c : Bytes
c = 99 ∷ []

abbrev stale : Rsm Bytes
stale = record (node_with a 5 []) { waiting_for_transfer = a ∷ b ∷ c ∷ [] }

view_change_ends_example :
    (Others a (a ∷ b ∷ c ∷ []) (b ∷ [])
      → (recover_primary (done_all (b ∷ []) stale)).inviewchange ≡ false)
    × ((x : Bytes)
        → isamember x (a ∷ b ∷ c ∷ []) ≡ true
        → (x == a) ≡ false
        → isamember x (b ∷ []) ≡ false
        → (recover_primary (done_all (b ∷ []) stale)).inviewchange ≡ true)
unfolding get_curview get_view members words value lookup
view_change_ends_example =
    view_change_ends b [] stale refl refl (refl, (refl, (refl, tt))) refl refl

view_decided_example :
    (t : Rsm ℕ) × (decide_view (record { instance_no = 2; v = value (b ∷ []) }) (node_at b)
      ≡ some t)
    × InView 2 (b ∷ []) t.cfg
    × (t.myvs ≡ record { vid = 2; seqno = 5 })
    × (t.app ≡ 4)
    × (isamember t.primary (b ∷ []) ≡ true)
    × (isamember a (b ∷ []) ≡ true → t.primary ≡ a)
    × (client_invoke procs (call_node procs (λ node. true)) 7 [] [] t backup
        ≡ some (busy, [], t, backup))
unfolding members words value lookup
view_decided_example =
    view_decided procs (call_node procs (λ node. true)) 7 [] [] backup
      (record { instance_no = 2; v = value (b ∷ []) }) (b ∷ []) (node_at b) b refl (omega arith)
      refl refl refl
