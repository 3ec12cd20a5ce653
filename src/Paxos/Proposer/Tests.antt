-- ===== src/Paxos/Proposer/Tests.antt =====
-- The theorems on the proposer at concrete inputs.
use lab.Base.{
  not, ◌≡◌, refl, Option, none, some, List, [], ◌∷◌, Bool, true, nat_key, ◌==◌, if◌then◌else◌, inl,
  inr, Bool-cases, some_inj, subst, sym, ap, ◌⊎◌,
}
use lab.Base.Bytes.{Bytes, str_key, str_eq_iff}
use lab.Protocol.Paxos.{Prepareres, Acceptarg}
use lab.Paxos.Acceptor.{prop_gt}
use lab.Paxos.Proposer.{run, proposer, majority, count_members, isamember, decide}
use lab.Paxos.Proposer.Rounds.{Chosen, Carries, round_keeps_value}
use lab.Paxos.Proposer.Success.{Willing, round_succeeds}

abbrev a : Bytes
a = 97 ∷ []

abbrev b : Bytes
b = 98 ∷ []

abbrev c : Bytes
c = 99 ∷ []

abbrev view : Bytes
view = 118 ∷ []

abbrev blank_reply : Prepareres
blank_reply = record { oldinstance = 0; accept = 0; n_a = record { n = 0; m = [] }; v_a = [] }

abbrev nodes : List Bytes
nodes = a ∷ b ∷ c ∷ []

-- "a" and "b" accepted `view` with number 3; "c" accepted nothing.
abbrev reported : Prepareres
reported = record { oldinstance = 0; accept = 1; n_a = record { n = 3; m = a }; v_a = view }

abbrev answer : Bytes → Option Prepareres
answer node =
    if node == c
    then some (record reported { n_a = record { n = 0; m = [] }; v_a = [] })
    else some reported

abbrev accepts_all : Bytes → Acceptarg → Bool
accepts_all node arg = true

by_node :
    (node : Bytes) (res : Prepareres)
    → answer node ≡ some res
    → ((node ≡ c) × (res.n_a ≡ record { n = 0; m = [] }))
      ⊎ ((res.n_a ≡ record { n = 3; m = a }) × (res.v_a ≡ view))
by_node node res e = elim (Bool-cases (node == c)) [
  | inl last ↦
      let is = some_inj (rw last at e) in inl ((str_eq_iff node c).0 last, sym (ap (λ r. r.n_a) is))
  | inr other ↦
      let is = some_inj (rw other at e) in inr (sym (ap (λ r. r.n_a) is), sym (ap (λ r. r.v_a) is))
]

answer-Chosen : Chosen answer (a ∷ b ∷ []) (record { n = 3; m = a }) view
answer-Chosen = (refl, (λ e. absurd (cc e)), in_quorum, below)
  where
    in_quorum :
        (node : Bytes) (res : Prepareres)
        → answer node ≡ some res
        → isamember node (a ∷ b ∷ []) ≡ true
        → (res.n_a ≡ record { n = 3; m = a }) × (res.v_a ≡ view)
    in_quorum node res e q = elim (by_node node res e) [
      | inr same ↦ same
      | inl last ↦ absurd (cc (subst (λ m. isamember m (a ∷ b ∷ []) ≡ true) last.0 q))
    ]

    below :
        (node : Bytes) (res : Prepareres)
        → answer node ≡ some res
        → (prop_gt (record { n = 3; m = a }) res.n_a ≡ true)
          ⊎ ((res.n_a ≡ record { n = 3; m = a }) × (res.v_a ≡ view))
    below node res e = elim (by_node node res e) [
      | inr same ↦ inr same
      | inl last ↦ inl (subst (λ p. prop_gt (record { n = 3; m = a }) p ≡ true) (sym last.1) refl)
    ]

-- There is no connection to "b".
abbrev linked : Bytes → Bool
linked node = not (node == b)

round_keeps_value_example :
    Carries view
      (run
        (λ node arg. answer node)
        accepts_all
        linked
        (record { n = 3; m = a })
        2
        nodes
        b
        (proposer c 0)).0.decides
unfolding majority count_members
round_keeps_value_example =
    round_keeps_value answer accepts_all linked (a ∷ b ∷ []) (record { n = 3; m = a }) view
      (record { n = 3; m = a }) 2 nodes b (proposer c 0) answer-Chosen refl

abbrev agreeing : Bytes → Option Prepareres
agreeing node = some (record blank_reply { accept = 1 })

willing : (node : Bytes) → Willing agreeing accepts_all node
willing node = ((record blank_reply { accept = 1 }, refl, refl, refl, refl), λ arg. refl)

round_succeeds_example :
    (run
      (λ node arg. agreeing node)
      accepts_all
      linked
      (record { n = 3; m = a })
      2
      nodes
      view
      (proposer c 0)).0
    ≡ record { r = true; decides = decide linked 2 nodes view; commits = none }
unfolding proposer
round_succeeds_example =
    round_succeeds agreeing accepts_all linked (record { n = 3; m = a }) 2 a (b ∷ c ∷ []) view
      (proposer c 0) (willing a, (willing b, (willing c, tt))) refl
