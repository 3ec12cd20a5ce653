-- ===== src/Paxos/Proposer/Quorum.antt =====
-- Two majorities of the same nodes share a node.
use lab.Base.{
  ◌+◌, ◌≤◌, ◌<◌, ◌≡◌, inl, inr, true, ◌||◌, List, [], ◌∷◌, ◌++◌, ◌==◌, nat_key, length, arith,
  Bool-cases,
}
use lab.Base.Bytes.{Bytes, str_key}
use lab.Base.Map.{beq_self}
use lab.Paxos.Proposer.{isamember, count_members, majority}

pub isamember-snoc :
    (m node : Bytes) (nodes : List Bytes)
    → isamember m (nodes ++ node ∷ []) ≡ (isamember m nodes || (node == m))
isamember-snoc m node [] = ground arith
isamember-snoc m node (x ∷ nodes) = ground (arith, isamember-snoc m node nodes)

abbrev pub Shared : List Bytes → List Bytes → List Bytes → Type 0
Shared l a b =
    (node : Bytes) × (isamember node l ≡ true)
    × (isamember node a ≡ true)
    × (isamember node b ≡ true)

count_at_most : (l a : List Bytes) → count_members l a ≤ length l
unfolding count_members
count_at_most [] a = omega arith
count_at_most (x ∷ l) a = ground (arith, count_at_most l a)

later : (x : Bytes) (l a b : List Bytes) → Shared l a b → Shared (x ∷ l) a b
later x l a b (node, p, q, r) = (node, ground arith, q, r)

counts_meet : (l a b : List Bytes) → length l < count_members l a + count_members l b → Shared l a b
unfolding count_members
counts_meet [] a b h = absurd (omega arith)
counts_meet (x ∷ l) a b h = elim (Bool-cases (isamember x a)) [
  | inr out ↦ later x l a b (counts_meet l a b (ground arith))
  | inl in_a ↦ elim (Bool-cases (isamember x b)) [
    | inr out ↦ later x l a b (counts_meet l a b (ground arith))
    | inl in_b ↦ (x, ground (arith, beq_self x), in_a, in_b)
  ]
]

-- Two lists that each contain a majority of the same nodes have a node in common.
pub majorities_meet :
    (l a b : List Bytes) → majority l a ≡ true → majority l b ≡ true → Shared l a b
unfolding majority
majorities_meet l a b h k = counts_meet l a b (ground arith)
