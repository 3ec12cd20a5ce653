-- ===== src/Paxos/Proposer.antt =====
-- The proposer (paxos.cc). The calls to a node, with the connection that `handle` makes to it, are
-- parameters: what the node answers, or none where there is no connection or the status is not OK. For
-- `decide`, `connected` says to which nodes there is a connection.
pub mod Quorum
pub mod Rounds
pub mod Success
mod Tests
use lab.Base.{
  ℕ, ◌+◌, ◌%◌, ◌/◌, ◌^◌, Bool, true, false, ◌&&◌, ◌||◌, not, Option, none, some, List, [], ◌∷◌,
  ◌++◌, ◌==◌, if◌then◌else◌, nat_key, ltb, leb, length,
}
use lab.Base.Bytes.{Bytes, str_key}
use lab.Protocol.Paxos.{Prop, Preparearg, Prepareres, Acceptarg, Decidearg}
use lab.Paxos.Acceptor.{Acceptor, prop_gt, commit_wo}

abbrev pub isamember : Bytes → List Bytes → Bool
isamember m [] = false
isamember m (node ∷ nodes) = if node == m then true else isamember m nodes

-- The loop of `majority`.
unfoldable pub count_members : List Bytes → List Bytes → ℕ
count_members [] l2 = 0
count_members (node ∷ l1) l2 = let n = count_members l1 l2 in if isamember node l2 then n + 1 else n

-- The lists are shorter than 2 ^ 32.
unfoldable pub majority : List Bytes → List Bytes → Bool
majority l1 l2 = leb (length l1 / 2 + 1) (count_members l1 l2)

pub record Proposer : Type 0 where
  pub me : Bytes
  pub break1 : Bool
  pub break2 : Bool
  pub stable : Bool
  pub c_nodes : List Bytes
  pub c_v : Bytes
  pub my_n : Prop

-- `n0` is what `my_n.n` holds before it is first set, as the constructor leaves it.
unfoldable pub proposer : Bytes → ℕ → Proposer
proposer me n0 = record {
  me = me;
  break1 = false;
  break2 = false;
  stable = true;
  c_nodes = [];
  c_v = [];
  my_n = record { n = n0; m = me };
}

unfoldable pub isrunning : Proposer → Bool
isrunning p = not p.stable

-- `unsigned` sums wrap around.
unfoldable pub setn : Prop → Proposer → Proposer
setn n_h p =
    let theirs = (n_h.n + 1) % 2 ^ 32 in
    let mine = (p.my_n.n + 1) % 2 ^ 32 in
    record p { my_n = record { n = (if ltb mine theirs then theirs else mine); m = p.my_n.m } }

-- What `prepare` comes to: the value of an old instance to commit, a rejection, or the nodes that
-- promised with the value of the greatest proposal among them.
pub data Prepared : Type 0 where
  oldinstance : Bytes → Prepared
  rejected : Prepared
  promised : List Bytes → Bytes → Prop → Prepared

-- The loop of `prepare`: `accepts`, `v` and `p_h` are its variables.
module _ (call : Bytes → Preparearg → Option Prepareres) where
  unfoldable pub prepare_loop : ℕ → Prop → List Bytes → List Bytes → Bytes → Prop → Prepared
  prepare_loop instance_no my_n [] accepts v p_h = promised accepts v p_h
  prepare_loop instance_no my_n (node ∷ nodes) accepts v p_h =
      let skip = prepare_loop instance_no my_n nodes accepts v p_h in
      elim (call node (record { instance_no = instance_no; n = my_n; v = v })) [
        | none ↦ skip
        | some res ↦
            let plain = prepare_loop instance_no my_n nodes (accepts ++ node ∷ []) v p_h in
            let taken =
              prepare_loop instance_no my_n nodes (accepts ++ node ∷ []) res.v_a res.n_a in
            if res.oldinstance == 1
            then oldinstance res.v_a
            else if res.accept == 0
            then rejected
            else if res.accept == 1
            then (if not (res.v_a == []) && prop_gt res.n_a p_h then taken else plain)
            else skip
      ]

unfoldable pub prepare :
    (Bytes → Preparearg → Option Prepareres) → ℕ → Prop → List Bytes → Bytes → Prepared
prepare call instance_no my_n nodes v =
    prepare_loop call instance_no my_n nodes [] v (record { n = 0; m = [] })

-- The nodes that answer `acceptreq` with OK, in order.
unfoldable pub accept : (Bytes → Acceptarg → Bool) → Acceptarg → List Bytes → List Bytes
accept call a [] = []
accept call a (node ∷ nodes) =
    let rest = accept call a nodes in if call node a then node ∷ rest else rest

-- The `decidereq` messages, in order, to the nodes that there is a connection to. Their outcome is
-- not looked at.
unfoldable pub decide : (Bytes → Bool) → ℕ → List Bytes → Bytes → List (Bytes × Decidearg)
decide connected instance_no [] v = []
decide connected instance_no (node ∷ accepts) v =
    let rest = decide connected instance_no accepts v in
    if connected node then (node, record { instance_no = instance_no; v = v }) ∷ rest else rest

-- What `run` comes to: its result, the messages of `decide`, and the commit of the node's own
-- acceptor, if any.
pub record Outcome : Type 0 where
  pub r : Bool
  pub decides : List (Bytes × Decidearg)
  pub commits : Option (ℕ × Bytes)

abbrev failed : Outcome
failed = record { r = false; decides = []; commits = none }

-- The part of `run` after a majority of promises. The breakpoints end the process in tests only.
unfoldable pub accept_and_decide :
    (Bytes → Acceptarg → Bool) → (Bytes → Bool) → ℕ → Proposer → List Bytes → Bytes → Outcome
accept_and_decide call connected instance_no p promises value =
    let v = (if value == [] then p.c_v else value) in
    let accepts = accept call (record { instance_no = instance_no; n = p.my_n; v = v }) promises in
    if majority p.c_nodes accepts
    then record { r = true; decides = decide connected instance_no accepts v; commits = none }
    else failed

unfoldable pub after_prepare :
    (Bytes → Acceptarg → Bool) → (Bytes → Bool) → ℕ → Proposer → Prepared → Outcome
after_prepare call connected instance_no p (oldinstance v) = record {
  r = false;
  decides = [];
  commits = some (instance_no, v);
}
after_prepare call connected instance_no p rejected = failed
after_prepare call connected instance_no p (promised accepts v p_h) =
    if majority p.c_nodes accepts
    then accept_and_decide call connected instance_no p accepts v
    else failed

-- `n_h` is the promise of the node's own acceptor.
unfoldable pub run :
    (Bytes → Preparearg → Option Prepareres)
    → (Bytes → Acceptarg → Bool)
    → (Bytes → Bool)
    → Prop
    → ℕ
    → List Bytes
    → Bytes
    → Proposer
    → Outcome × Proposer
run ask_prepare ask_accept connected n_h instance_no current_nodes newv p =
    let p' = setn n_h (record p { c_nodes = current_nodes; c_v = newv }) in
    if not p.stable then (failed, p) else (
      after_prepare ask_accept connected instance_no p'
          (prepare ask_prepare instance_no p'.my_n current_nodes []),
      record p' { stable = true },
    )
