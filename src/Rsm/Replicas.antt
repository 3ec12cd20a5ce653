-- ===== src/Rsm/Replicas.antt =====
-- The members of the view stay in step.
use lab.Base.{
  ◌-◌, ℕ, ◌+◌, ◌^◌, ◌<◌, ◌≡◌, refl, sym, ap, subst, ◌∙◌, ◌⊎◌, inl, inr, Bool, true, false, Option,
  none, some, List, ◌++◌, arith, ◌==◌, if◌then◌else◌, nat_key, ltb, length, Bool-cases,
  Option-cases, some_inj,
}
use lab.Base.Bytes.{Bytes, str_key}
use lab.Base.Map.{Map, lookup, insert, lookup-insert, beq_self}
use lab.Protocol.Rsm.{Viewstamp}
use lab.Rpc.Marshal.{take_content, Unmarshall, fresh, put_u32, put_string, get_u32, rpc_header_sz}
use lab.Rpc.Marshal.RoundTrip.{take_content_lem}
use lab.Rpc.Marshal.Laws.{cursor, u32, u32_put, string_put, u32_bytes, string_bytes}
use lab.Paxos.Proposer.{isamember}
use lab.Config.{ismember}
use lab.Rsm.{Rsm}
use lab.Rsm.Calls.{err, execute, in_turn, invoke, next_vs}

reply_status :
    (ret : ℕ) (rep : Bytes)
    → ret < 2 ^ 31
    → length rep < 2 ^ 31 - 2048
    → (u : Unmarshall) × (get_u32 (take_content (put_string rep (put_u32 ret fresh)).body)
        ≡ some (ret, u))
reply_status ret rep h k =
    let e : (put_string rep (put_u32 ret fresh)).body ≡ u32_bytes ret ++ string_bytes rep =
      string_put rep (put_u32 ret fresh) ∙ ap (λ b. b ++ string_bytes rep) (u32_put ret fresh) in
    (
      cursor (rpc_header_sz + 4) (string_bytes rep),
      ap (λ b. get_u32 (take_content b)) e
          ∙ ap get_u32 (take_content_lem (u32_bytes ret ++ string_bytes rep) (omega arith))
          ∙ u32.get_lem ret rpc_header_sz (string_bytes rep) (omega arith) (omega arith),
    )

module _ {A : Type 0} (procs : ℕ → Option (Bytes → A → ℕ × Bytes × A)) where
  -- A request that executes: its procedure is there, the status is not negative, and the reply
  -- is more than 2 kB below 2 GB, so that no size in its message leaves `int`.
  pub record Executes (proc : ℕ) (req : Bytes) (app : A) : Type 0 where
    pub fn : Bytes → A → ℕ × Bytes × A
    pub there : procs proc ≡ some fn
    pub status_fits : (fn req app).0 < 2 ^ 31
    pub reply_fits : length (fn req app).1 < 2 ^ 31 - 2048

  -- The service after the request.
  abbrev pub after : (proc : ℕ) (req : Bytes) (app : A) → Executes proc req app → A
  after proc req app x = (x.fn req app).2

  -- A member of the view at viewstamp `vs`, with the service in state `app`.
  abbrev pub IsAt : Viewstamp → A → Rsm A → Type 0
  IsAt vs app r = (r.myvs ≡ vs) × (r.app ≡ app) × (ismember r.cfg.me r.cfg ≡ true)

  pub execute-some :
      (proc : ℕ) (req : Bytes) (app : A) (x : Executes proc req app)
      → execute procs proc req app
        ≡ some (
          (put_string (x.fn req app).1 (put_u32 (x.fn req app).0 fresh)).body,
          after proc req app x,
        )
  unfolding execute
  execute-some proc req app x = rw (x.there, execute) refl

  invoke_next :
      (proc : ℕ) (req : Bytes) (vs : Viewstamp) (app : A) (r : Rsm A)
      → vs.seqno < 2 ^ 32
      → (x : Executes proc req app) → IsAt vs app r
      → (r' : Rsm A) × (invoke procs proc (next_vs vs) req r ≡ some ((x.fn req app).0, r'))
        × IsAt (next_vs vs) (after proc req app x) r'
  unfolding invoke
  invoke_next proc req vs app r small x (v, a, m) =
      let turn : in_turn (next_vs vs) r ≡ true =
        ground (arith, ap (λ (z : Viewstamp). z.vid) v, ap (λ (z : Viewstamp). z.seqno) v, m) in
      let run = ap (execute procs proc req) a ∙ execute-some proc req app x in
      let status = reply_status (x.fn req app).0 (x.fn req app).1 x.status_fits x.reply_fits in
      (
        record r { last_myvs = r.myvs; myvs = next_vs vs; app = after proc req app x },
        rw (turn, run, status.1, invoke) refl,
        (refl, refl, m),
      )

  invoke_again :
      (proc : ℕ) (req : Bytes) (vs : Viewstamp) (app : A) (r : Rsm A)
      → vs.seqno < 2 ^ 32
      → IsAt (next_vs vs) app r
      → invoke procs proc (next_vs vs) req r ≡ some (err, r)
  unfolding invoke
  invoke_again proc req vs app r small (v, a, m) =
      let turn : in_turn (next_vs vs) r ≡ false =
        ground (arith, ap (λ (z : Viewstamp). z.vid) v, ap (λ (z : Viewstamp). z.seqno) v, m) in
      rw turn refl

  -- The nodes, by name. A node that ends on an assertion is not reached.
  abbrev pub World : Type 0
  World = Map Bytes (Rsm A)

  -- The call of `invoke` at a node that is up: whether the status comes back and is not negative.
  unfoldable pub call_node : (Bytes → Bool) → Bytes → ℕ → Viewstamp → Bytes → World → Bool × World
  call_node up node proc vs req w = elim (lookup node w) [
    | none ↦ (false, w)
    | some r ↦ elim (invoke procs proc vs req r) [
      | none ↦ (false, w)
      | some (ret, r') ↦ if up node then (ltb ret (2 ^ 31), insert node r' w) else (false, w)
    ]
  ]

  -- Every node is at `vs` with service `old`, or one request further with service `new`.
  abbrev pub InStep : Viewstamp → A → A → World → Type 0
  InStep vs old new w =
      (node : Bytes) (r : Rsm A) → lookup node w ≡ some r → IsAt vs old r ⊎ IsAt (next_vs vs) new r

  -- The nodes of `mems` but `me` have executed the request.
  abbrev pub Executed : Bytes → List Bytes → Viewstamp → A → World → Type 0
  Executed me mems vs new w =
      (node : Bytes)
      → isamember node mems ≡ true
      → (node == me) ≡ false
      → (r : Rsm A) × (lookup node w ≡ some r) × IsAt (next_vs vs) new r

  pub call_node-InStep :
      (up : Bytes → Bool) (node : Bytes) (proc : ℕ) (req : Bytes) (vs : Viewstamp) (app : A)
      (w : World)
      → vs.seqno < 2 ^ 32
      → (x : Executes proc req app) → InStep vs app (after proc req app x) w
      → InStep vs app (after proc req app x) (call_node up node proc (next_vs vs) req w).1
        × ((call_node up node proc (next_vs vs) req w).0 ≡ true
            → (r : Rsm A) × (lookup node (call_node up node proc (next_vs vs) req w).1 ≡ some r)
              × IsAt (next_vs vs) (after proc req app x) r)
        × ((other : Bytes) (r : Rsm A)
            → lookup other w ≡ some r
            → IsAt (next_vs vs) (after proc req app x) r
            → (r' : Rsm A) × (lookup other (call_node up node proc (next_vs vs) req w).1 ≡ some r')
              × IsAt (next_vs vs) (after proc req app x) r')
  unfolding call_node
  call_node-InStep up node proc req vs app w small x s = elim (Option-cases (lookup node w)) [
    | inl gone ↦ rw (gone, call_node) (s, (λ e. absurd (cc e)), λ other r f a. (r, f, a))
    | inr (r, here) ↦
        let done = moved r (s node r here) in
        elim (Bool-cases (up node)) [
          | inr down ↦
              rw (here, done.2, down, call_node) (s, (λ e. absurd (cc e)), λ other r f a. (r, f, a))
          | inl runs ↦
              rw (here, done.2, runs, call_node)
                (
                  (λ other q f. elim (Bool-cases (node == other)) [
                    | inl same ↦ inr (
                        subst (IsAt (next_vs vs) (after proc req app x))
                          (some_inj (sym (rw same at (lookup-insert node other done.1 w)) ∙ f))
                          done.3)
                    | inr differ ↦
                        s other q (sym (rw differ at (lookup-insert node other done.1 w)) ∙ f)
                  ]),
                  (λ e. (done.1, rw (beq_self node) at (lookup-insert node node done.1 w), done.3)),
                  λ other q f a. elim (Bool-cases (node == other)) [
                    | inl same ↦ (done.1, rw same at (lookup-insert node other done.1 w), done.3)
                    | inr differ ↦ (q, (rw differ at (lookup-insert node other done.1 w)) ∙ f, a)
                  ],
                )
        ]
  ]
    where
      moved :
          (r : Rsm A)
          → IsAt vs app r ⊎ IsAt (next_vs vs) (after proc req app x) r
          → (ret : ℕ) × (r' : Rsm A) × (invoke procs proc (next_vs vs) req r ≡ some (ret, r'))
            × IsAt (next_vs vs) (after proc req app x) r'
      moved r (inl before) =
          let n = invoke_next proc req vs app r small x before in ((x.fn req app).0, n.0, n.1, n.2)
      moved r (inr ahead) = (err, r, invoke_again proc req vs _ r small ahead, ahead)
