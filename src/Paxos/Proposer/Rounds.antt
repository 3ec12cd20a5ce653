-- ===== src/Paxos/Proposer/Rounds.antt =====
-- What a round of the proposer decides.
use lab.Base.{
  ℕ, ◌≡◌, ◌≢◌, refl, sym, subst, ◌∙◌, ◌⊎◌, inl, inr, Bool, true, false, ◌&&◌, not, Option, some,
  List, [], ◌∷◌, ◌++◌, ◌==◌, nat_key, arith, Bool-cases, Option-cases, All,
}
use lab.Base.Bytes.{Bytes, str_key, str_eq_iff, str_lt_asym}
use lab.Protocol.Paxos.{Prop, Prepareres, Acceptarg, Decidearg}
use lab.Paxos.Acceptor.{prop_gt}
use lab.Paxos.Proposer.{
  isamember, majority, Proposer, setn, Prepared, oldinstance, rejected, promised, prepare_loop,
  prepare, accept, decide, accept_and_decide, after_prepare, run,
}
use lab.Paxos.Proposer.Quorum.{isamember-snoc, majorities_meet}

gt_asym : (a b : Prop) → prop_gt a b ≡ true → prop_gt b a ≡ false
gt_asym a b h = ground (arith, str_lt_asym b.m a.m, str_lt_asym a.m b.m)

-- `q` holds the nodes that accepted proposal `n` with value `w`, which they report, and no node
-- reports a greater proposal, or this one with another value.
abbrev pub Chosen : (Bytes → Option Prepareres) → List Bytes → Prop → Bytes → Type 0
Chosen answer q n w =
    (prop_gt n (record { n = 0; m = [] }) ≡ true)
    × (w ≢ [])
    × ((node : Bytes) (res : Prepareres)
        → answer node ≡ some res
        → isamember node q ≡ true
        → (res.n_a ≡ n) × (res.v_a ≡ w))
    × ((node : Bytes) (res : Prepareres)
        → answer node ≡ some res
        → (prop_gt n res.n_a ≡ true) ⊎ ((res.n_a ≡ n) × (res.v_a ≡ w)))

-- The variables of `prepare` after some of the nodes.
abbrev Sound : List Bytes → Prop → Bytes → List Bytes → Bytes → Prop → Type 0
Sound q n w accepts v p_h =
    ((node : Bytes) → isamember node accepts ≡ true → isamember node q ≡ true → (p_h ≡ n) × (v ≡ w))
    × ((prop_gt n p_h ≡ true) ⊎ ((p_h ≡ n) × (v ≡ w)))

abbrev SoundResult : List Bytes → Prop → Bytes → Prepared → Type 0
SoundResult q n w (oldinstance v) = Unit
SoundResult q n w rejected = Unit
SoundResult q n w (promised accepts v p_h) = Sound q n w accepts v p_h

module _ (answer : Bytes → Option Prepareres) (q : List Bytes) (n : Prop) (w : Bytes)
    (c : Chosen answer q n w) where
  Sound-taken :
      (node : Bytes) (res : Prepareres) (accepts : List Bytes) (v : Bytes) (p_h : Prop)
      → answer node ≡ some res
      → prop_gt res.n_a p_h ≡ true
      → Sound q n w accepts v p_h
      → Sound q n w (accepts ++ node ∷ []) res.v_a res.n_a
  Sound-taken node res accepts v p_h e g s = (
    λ m p in_q. elim (Bool-cases (isamember m accepts)) [
      | inl before ↦
          let gn : prop_gt res.n_a n ≡ true =
            subst (λ x. prop_gt res.n_a x ≡ true) (s.0 m before in_q).0 g in
          elim (c.3 node res e) [
            | inl less ↦ absurd (let z = gt_asym n res.n_a less in cc)
            | inr same ↦ same
          ]
      | inr now ↦
          let same : node ≡ m = ground (arith, isamember-snoc m node accepts, str_eq_iff node m) in
          c.2 node res e (subst (λ x. isamember x q ≡ true) (sym same) in_q)
    ],
    c.3 node res e,
  )

  Sound-kept :
      (node : Bytes) (res : Prepareres) (accepts : List Bytes) (v : Bytes) (p_h : Prop)
      → answer node ≡ some res
      → (not (res.v_a == []) && prop_gt res.n_a p_h) ≡ false
      → Sound q n w accepts v p_h
      → Sound q n w (accepts ++ node ∷ []) v p_h
  Sound-kept node res accepts v p_h e g s = (
    λ m p in_q. elim (Bool-cases (isamember m accepts)) [
      | inl before ↦ s.0 m before in_q
      | inr now ↦
          let same : node ≡ m = ground (arith, isamember-snoc m node accepts, str_eq_iff node m) in
          let r = c.2 node res e (subst (λ x. isamember x q ≡ true) (sym same) in_q) in
          elim s.1 [
            | inr done ↦ done
            | inl less ↦ absurd (
                c.1 (
                  let gt : prop_gt res.n_a p_h ≡ true =
                    subst (λ x. prop_gt x p_h ≡ true) (sym r.0) less in
                  sym r.1 ∙ (str_eq_iff res.v_a []).0 (ground arith)))
          ]
    ],
    s.1,
  )

  loop-Sound :
      (i : ℕ) (my_n : Prop) (nodes accepts : List Bytes) (v : Bytes) (p_h : Prop)
      → Sound q n w accepts v p_h
      → SoundResult q n w (prepare_loop (λ node a. answer node) i my_n nodes accepts v p_h)
  unfolding prepare_loop
  loop-Sound i my_n [] accepts v p_h s = s
  loop-Sound i my_n (node ∷ nodes) accepts v p_h s = elim (Option-cases (answer node)) [
    | inl silent ↦ rw (silent, prepare_loop) (loop-Sound i my_n nodes accepts v p_h s)
    | inr (res, said) ↦ elim (Bool-cases (res.oldinstance == 1)) [
      | inl old ↦ rw (said, old, prepare_loop) tt
      | inr new ↦ elim (Bool-cases (res.accept == 0)) [
        | inl refused ↦ rw (said, new, refused, prepare_loop) tt
        | inr nay ↦ elim (Bool-cases (res.accept == 1)) [
          | inr odd ↦
              rw (said, new, nay, odd, prepare_loop) (loop-Sound i my_n nodes accepts v p_h s)
          | inl taken ↦ elim (Bool-cases (not (res.v_a == []) && prop_gt res.n_a p_h)) [
            | inl take_it ↦
                rw (said, new, nay, taken, take_it, prepare_loop)
                  (loop-Sound i my_n nodes _ _ _
                    (Sound-taken node res accepts v p_h said (ground arith) s))
            | inr keep_it ↦
                rw (said, new, nay, taken, keep_it, prepare_loop)
                  (loop-Sound i my_n nodes _ _ _ (Sound-kept node res accepts v p_h said keep_it s))
          ]
        ]
      ]
    ]
  ]

-- Each message carries the value.
abbrev pub Carries : Bytes → List (Bytes × Decidearg) → Type 0
Carries w = All (λ m. m.1.v ≡ w)

decide-Carries :
    (connected : Bytes → Bool) (i : ℕ) (nodes : List Bytes) (w : Bytes)
    → Carries w (decide connected i nodes w)
unfolding decide
decide-Carries connected i [] w = tt
decide-Carries connected i (node ∷ nodes) w = elim (Bool-cases (connected node)) [
  | inl reached ↦ rw reached (refl, decide-Carries connected i nodes w)
  | inr alone ↦ rw alone (decide-Carries connected i nodes w)
]

accept_and_decide-Carries :
    (call : Bytes → Acceptarg → Bool) (connected : Bytes → Bool) (i : ℕ) (p : Proposer)
    (accepts : List Bytes) (w : Bytes)
    → w ≢ []
    → Carries w (accept_and_decide call connected i p accepts w).decides
unfolding accept_and_decide
accept_and_decide-Carries call connected i p accepts w z =
    let full : (w == []) ≡ false = ground (arith, str_eq_iff w [], z) in
    let taken = accept call (record { instance_no = i; n = p.my_n; v = w }) accepts in
    elim (Bool-cases (majority p.c_nodes taken)) [
      | inl most ↦ rw (full, most) (decide-Carries connected i taken w)
      | inr few ↦ rw (full, few) tt
    ]

after_prepare-Carries :
    (call : Bytes → Acceptarg → Bool) (connected : Bytes → Bool) (q : List Bytes) (n : Prop)
    (w : Bytes) (i : ℕ) (p : Proposer) (a : Prepared)
    → w ≢ []
    → majority p.c_nodes q ≡ true
    → SoundResult q n w a
    → Carries w (after_prepare call connected i p a).decides
unfolding after_prepare
after_prepare-Carries call connected q n w i p (oldinstance v) z h s = tt
after_prepare-Carries call connected q n w i p rejected z h s = tt
after_prepare-Carries call connected q n w i p (promised accepts v p_h) z h s =
    elim (Bool-cases (majority p.c_nodes accepts)) [
      | inr few ↦ rw few tt
      | inl most ↦
          let shared = majorities_meet p.c_nodes accepts q most h in
          let kept = s.0 shared.0 shared.2 shared.3 in
          rw most (
            subst (λ x. Carries w (accept_and_decide call connected i p accepts x).decides)
              (sym kept.1) (accept_and_decide-Carries call connected i p accepts w z))
    ]

-- A chosen value stays chosen: where a majority of the nodes accepted proposal `n` with the
-- non-empty value `w`, those of them that answer report it, and no answer reports a greater proposal
-- or another value for `n`, a round of any proposer over the same nodes sends no other value
-- than `w` in its decisions, whatever value it was given and whichever nodes are silent, refuse,
-- answer or can be reached.
pub round_keeps_value :
    (answer : Bytes → Option Prepareres) (call : Bytes → Acceptarg → Bool)
    (connected : Bytes → Bool) (q : List Bytes) (n : Prop) (w : Bytes) (n_h : Prop) (i : ℕ)
    (nodes : List Bytes) (newv : Bytes) (p : Proposer)
    → Chosen answer q n w
    → majority nodes q ≡ true
    → Carries w (run (λ node a. answer node) call connected n_h i nodes newv p).0.decides
unfolding run setn prepare
round_keeps_value answer call connected q n w n_h i nodes newv p c h = elim (Bool-cases p.stable) [
  | inr busy ↦ rw busy tt
  | inl idle ↦ rw idle (
      after_prepare-Carries call connected q n w i _ _ c.1 h
        (loop-Sound answer q n w c i _ nodes [] [] _ ((λ m p in_q. absurd (cc p)), inl c.0)))
]
