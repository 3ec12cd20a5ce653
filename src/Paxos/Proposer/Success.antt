-- ===== src/Paxos/Proposer/Success.antt =====
-- When a round of the proposer succeeds.
use lab.Base.{
  ℕ, ◌≡◌, refl, sym, ap, ◌∙◌, Bool, true, false, ◌&&◌, not, Option, none, some, List, [], ◌∷◌, ◌++◌,
  ◌==◌, nat_key, length, arith, All, append-nil, append_assoc,
}
use lab.Base.Bytes.{Bytes, str_key}
use lab.Base.Map.{beq_self}
use lab.Protocol.Paxos.{Prop, Prepareres, Acceptarg}
use lab.Paxos.Acceptor.{prop_gt}
use lab.Paxos.Proposer.{
  isamember, count_members, majority, Proposer, setn, promised, prepare_loop, prepare, accept,
  decide, accept_and_decide, after_prepare, run,
}

-- Every node has a connection, promises without a value, and accepts.
abbrev pub Willing : (Bytes → Option Prepareres) → (Bytes → Acceptarg → Bool) → Bytes → Type 0
Willing answer call node =
    ((res : Prepareres) × (answer node ≡ some res)
      × (res.oldinstance ≡ 0)
      × (res.accept ≡ 1)
      × (res.v_a ≡ []))
    × ((a : Acceptarg) → call node a ≡ true)

module _ (answer : Bytes → Option Prepareres) (call : Bytes → Acceptarg → Bool) where
  loop-Willing :
      (i : ℕ) (my_n : Prop) (nodes accepts : List Bytes) (v : Bytes) (p_h : Prop)
      → All (Willing answer call) nodes
      → prepare_loop (λ node a. answer node) i my_n nodes accepts v p_h
        ≡ promised (accepts ++ nodes) v p_h
  unfolding prepare_loop
  loop-Willing i my_n [] accepts v p_h all = ap (λ l. promised l v p_h) (sym (append-nil accepts))
  loop-Willing i my_n (node ∷ nodes) accepts v p_h ((one, oks), all) =
      let (res, said, new, agreed, bare) = one in
      let e0 : (res.oldinstance == 1) ≡ false = ground (arith, new) in
      let e1 : (res.accept == 0) ≡ false = ground (arith, agreed) in
      let e2 : (res.accept == 1) ≡ true = ground (arith, agreed) in
      let e3 : (not (res.v_a == []) && prop_gt res.n_a p_h) ≡ false =
        ap (λ b. not (b == []) && prop_gt res.n_a p_h) bare in
      rw (said, e0, e1, e2, e3, prepare_loop)
        (loop-Willing i my_n nodes (accepts ++ node ∷ []) v p_h all
          ∙ ap (λ l. promised l v p_h) (append_assoc accepts (node ∷ []) nodes))

  accept-Willing :
      (a : Acceptarg) (nodes : List Bytes)
      → All (Willing answer call) nodes
      → accept call a nodes ≡ nodes
  unfolding accept
  accept-Willing a [] all = refl
  accept-Willing a (node ∷ nodes) ((one, oks), all) =
      rw (oks a) (ap (◌∷◌ node) (accept-Willing a nodes all))

count-All : (l l2 : List Bytes) → All (λ x. isamember x l2 ≡ true) l → count_members l l2 ≡ length l
unfolding count_members
count-All [] l2 a = refl
count-All (x ∷ l) l2 (here, a) = rw here (omega (arith, count-All l l2 a))

member_later :
    (y : Bytes) (l l2 : List Bytes)
    → All (λ x. isamember x l2 ≡ true) l
    → All (λ x. isamember x (y ∷ l2) ≡ true) l
member_later y [] l2 a = tt
member_later y (x ∷ l) l2 (here, a) = (ground arith, member_later y l l2 a)

member_self : (l : List Bytes) → All (λ x. isamember x l ≡ true) l
member_self [] = tt
member_self (x ∷ l) = (ground (arith, beq_self x), member_later x l l (member_self l))

majority_self : (x : Bytes) (l : List Bytes) → majority (x ∷ l) (x ∷ l) ≡ true
unfolding majority
majority_self x l = ground (arith, count-All (x ∷ l) (x ∷ l) (member_self (x ∷ l)))

-- A round of an idle proposer over at least one node, in which every node promises without a
-- value and accepts, succeeds: the decision of the given value is sent to every node that there is a connection to, in
-- order, and to no other.
pub round_succeeds :
    (answer : Bytes → Option Prepareres) (call : Bytes → Acceptarg → Bool)
    (connected : Bytes → Bool) (n_h : Prop) (i : ℕ) (node : Bytes) (nodes : List Bytes)
    (newv : Bytes) (p : Proposer)
    → All (Willing answer call) (node ∷ nodes)
    → p.stable ≡ true
    → (run (λ node a. answer node) call connected n_h i (node ∷ nodes) newv p).0
      ≡ record { r = true; decides = decide connected i (node ∷ nodes) newv; commits = none }
unfolding run setn prepare after_prepare accept_and_decide
round_succeeds answer call connected n_h i node nodes newv p all idle = rw (
  idle,
  loop-Willing answer call i (setn n_h p).my_n (node ∷ nodes) [] [] (record { n = 0; m = [] }) all,
  majority_self node nodes,
  accept-Willing answer call (record { instance_no = i; n = (setn n_h p).my_n; v = newv })
      (node ∷ nodes) all,
  majority_self node nodes,
)
