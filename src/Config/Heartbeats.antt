-- ===== src/Config/Heartbeats.antt =====
-- Which node a round of heartbeats removes.
use lab.Base.{
  ℕ, ◌≡◌, refl, sym, subst, ◌∙◌, ◌⊎◌, inl, inr, true, false, some, List, [], ◌∷◌, arith, ◌==◌,
  nat_key, Bool-cases, some_inj,
}
use lab.Base.Bytes.{Bytes, str_key, str_lt, str_eq_iff}
use lab.Base.Map.{beq_self}
use lab.Paxos.Proposer.{isamember}
use lab.Config.{Config, Beat, doheartbeat, is_ok, smallest, ping_all, ping}

smallest_in :
    (m : Bytes) (ns : List Bytes) → (smallest m ns ≡ m) ⊎ (isamember (smallest m ns) ns ≡ true)
unfolding smallest
smallest_in m [] = inl refl
smallest_in m (n ∷ ns) =
    let Found = λ (x : Bytes). (x ≡ m) ⊎ (isamember x (n ∷ ns) ≡ true) in
    elim (Bool-cases (str_lt n m)) [
      | inr other ↦
          let e : smallest m (n ∷ ns) ≡ smallest m ns = rw other refl in
          subst Found (sym e) (elim (smallest_in m ns) [
            | inl same ↦ inl same
            | inr deep ↦ inr (ground (arith, deep))
          ])
      | inl less ↦
          let e : smallest m (n ∷ ns) ≡ smallest n ns = rw less refl in
          subst Found (sym e) (elim (smallest_in n ns) [
            | inl same ↦ inr (ground (arith, same, str_eq_iff n (smallest n ns)))
            | inr deep ↦ inr (ground (arith, deep))
          ])
    ]

-- Node `m` is another member, and its heartbeat failed or told of another view.
abbrev pub Failed : (Bytes → ℕ → Beat) → ℕ → Bytes → List Bytes → Bytes → Type 0
Failed call vid me mems m =
    (isamember m mems ≡ true) × ((m == me) ≡ false) × (is_ok (doheartbeat (call m vid)).0 ≡ false)

ping_all-Failed :
    (call : Bytes → ℕ → Beat) (vid : ℕ) (me m : Bytes) (ms : List Bytes)
    → (ping_all call me vid ms).0 ≡ some m
    → Failed call vid me ms m
unfolding ping_all
ping_all-Failed call vid me m [] e = absurd (cc e)
ping_all-Failed call vid me m (n ∷ ns) e = elim (Bool-cases (n == me)) [
  | inl mine ↦
      let f = ping_all-Failed call vid me m ns (rw mine at e) in (ground (arith, f.0), f.1, f.2)
  | inr other ↦ elim (Bool-cases (is_ok (doheartbeat (call n vid)).0)) [
    | inl fine ↦
        let f = ping_all-Failed call vid me m ns (rw (other, fine) at e) in
        (ground (arith, f.0), f.1, f.2)
    | inr bad ↦
        let same : n ≡ m = some_inj (rw (other, bad) at e) in
        subst (Failed call vid me (n ∷ ns)) same (ground (arith, beq_self n), other, bad)
  ]
]

-- The node that a round of heartbeats has removed is another member of the view, and the call to it
-- failed or was refused for its view.
pub removed-Failed :
    (call : Bytes → ℕ → Beat) (s : Config) (m : Bytes)
    → (ping call s).0 ≡ some m
    → Failed call s.myvid s.me s.mems m
unfolding ping
removed-Failed call s m e = elim (Bool-cases (isamember s.me s.mems)) [
  | inr out ↦ absurd (cc (rw out at e))
  | inl present ↦ elim (Bool-cases (smallest s.me s.mems == s.me)) [
    | inl first ↦ ping_all-Failed call s.myvid s.me m s.mems (rw (present, first) at e)
    | inr other ↦ elim (Bool-cases (is_ok (doheartbeat (call (smallest s.me s.mems) s.myvid)).0)) [
      | inl fine ↦ absurd (cc (rw (present, other, fine) at e))
      | inr bad ↦
          let same : smallest s.me s.mems ≡ m = some_inj (rw (present, other, bad) at e) in
          subst (Failed call s.myvid s.me s.mems) same (
            elim (smallest_in s.me s.mems) [
              | inr deep ↦ deep
              | inl mine ↦
                  absurd (cc (sym ((str_eq_iff (smallest s.me s.mems) s.me).1 mine) ∙ other))
            ],
            other,
            bad,
          )
    ]
  ]
]
