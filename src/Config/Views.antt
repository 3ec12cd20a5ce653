-- ===== src/Config/Views.antt =====
-- How a node is added to the view or removed from it.
use lab.Base.{
  ℕ, ◌+◌, ◌%◌, ◌^◌, ◌<◌, ◌≡◌, refl, ap, ◌∙◌, Bool, true, false, Option, List, [], ◌∷◌, ◌++◌, arith,
  nat_key, leb, ltb, All,
}
use lab.Base.Bytes.{Bytes, str_key}
use lab.Base.Map.{at, lookup-insert}
use lab.Protocol.Paxos.{Prepareres, Acceptarg, Decidearg}
use lab.Paxos.Acceptor
use lab.Paxos.Acceptor.{Acceptor, log_record}
use lab.Paxos.Proposer.{Outcome, decide}
use lab.Paxos.Proposer.Success.{Willing, round_succeeds}
use lab.Config.{
  Config, members, value, get_view, get_curview, paxos_commit, commit, decidereq, propose, add,
  remove_wo, without,
}
use lab.Config.Text.{IsName, members-value}

-- The node is in view `i`, whose members are `m`.
abbrev pub InView : ℕ → List Bytes → Config → Type 0
InView i m t = (t.mems ≡ m) × (t.myvid ≡ i) × ((get_curview t).0 ≡ m)

at_decided :
    (i : ℕ) (v : Bytes) (s : Acceptor)
    → s.instance_h < i
    → at i [] (Acceptor.commit_wo i v s).values ≡ v
unfolding Acceptor.commit_wo log_record
at_decided i v s h = ground (arith, lookup-insert i i v s.values)

pub decided_view :
    (d : Decidearg) (m : List Bytes) (t : Config)
    → t.acc.instance_h < d.instance_no
    → members d.v ≡ m
    → InView d.instance_no m (decidereq d t)
unfolding decidereq commit paxos_commit get_curview get_view
decided_view d m t h e =
    let new : leb d.instance_no t.acc.instance_h ≡ false = ground arith in
    let higher : ltb t.acc.instance_h d.instance_no ≡ true = ground arith in
    rw (new, higher) (e, refl, ap members (at_decided d.instance_no d.v t.acc h) ∙ e)

-- A round over willing nodes that proposes the view `m` comes to this.
abbrev pub Decides : (Bytes → Bool) → ℕ → List Bytes → List Bytes → Outcome → Type 0
Decides connected i nodes m o =
    (o.r ≡ true)
    × (o.decides ≡ decide connected i nodes (value m))
    × ((t : Config)
        → t.acc.instance_h < i
        → InView i m (decidereq (record { instance_no = i; v = value m }) t))

module _ (answer : Bytes → Option Prepareres) (call : Bytes → Acceptarg → Bool)
    (connected : Bytes → Bool) where
  propose_view :
      (m : List Bytes) (s : Config) (node : Bytes) (nodes : List Bytes)
      → s.mems ≡ node ∷ nodes
      → All (Willing answer call) (node ∷ nodes)
      → s.pro.stable ≡ true
      → s.myvid + 1 < 2 ^ 32
      → All IsName m
      → Decides connected (s.myvid + 1) s.mems m (propose (λ n a. answer n) call connected m s).0
  unfolding propose
  propose_view m s node nodes e willing idle small named =
      let i : (s.myvid + 1) % 2 ^ 32 ≡ s.myvid + 1 = omega arith in
      let round =
        round_succeeds answer call connected s.acc.n_h (s.myvid + 1) node nodes (value m) s.pro
          willing idle in
      rw (i, e)
        (
          ap (λ (o : Outcome). o.r) round,
          ap (λ (o : Outcome). o.decides) round,
          λ t h.
              decided_view (record { instance_no = s.myvid + 1; v = value m }) m t h
                (members-value m named),
        )

-- Where every member is willing, adding a node, or removing one, decides the view with exactly
-- this node added at the end, or taken out, and tells every member that there is a connection to;
-- and a node that has decided no such
-- instance yet is in this view when it learns of the decision. The names of the nodes are not
-- empty and have no blanks, and the view's number does not wrap around.
pub view_changes :
    (answer : Bytes → Option Prepareres) (call : Bytes → Acceptarg → Bool)
    (connected : Bytes → Bool) (s : Config) (m node : Bytes) (nodes : List Bytes)
    → s.mems ≡ node ∷ nodes
    → All (Willing answer call) (node ∷ nodes)
    → s.pro.stable ≡ true
    → s.myvid + 1 < 2 ^ 32
    → All IsName (s.mems ++ m ∷ [])
    → All IsName (without m s.mems)
    → Decides connected
        (s.myvid + 1)
        s.mems
        (s.mems ++ m ∷ [])
        (add (λ n a. answer n) call connected m s).0
      × Decides connected
          (s.myvid + 1)
          s.mems
          (without m s.mems)
          (remove_wo (λ n a. answer n) call connected m s).0
unfolding add remove_wo
view_changes answer call connected s m node nodes e willing idle small more fewer = (
  propose_view answer call connected (s.mems ++ m ∷ []) s node nodes e willing idle small more,
  propose_view answer call connected (without m s.mems) s node nodes e willing idle small fewer,
)
