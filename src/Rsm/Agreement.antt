-- ===== src/Rsm/Agreement.antt =====
-- What a client's request leaves at the members of the view.
use lab.Base.{
  ℕ, ◌^◌, ◌<◌, ◌≡◌, ◌≢◌, refl, sym, ap, subst, ◌∙◌, inl, inr, Bool, true, Option, some, List, [],
  ◌∷◌, ◌==◌, if◌then◌else◌, nat_key, Bool-cases,
}
use lab.Base.Bytes.{Bytes, str_key, str_eq_iff}
use lab.Base.Map.{lookup}
use lab.Protocol.Rsm.{Viewstamp}
use lab.Rpc.Marshal.{fresh, put_u32, put_string}
use lab.Paxos.Proposer.{isamember}
use lab.Config.{get_curview}
use lab.Rsm.{Rsm}
use lab.Rsm.Calls.{ClientStatus, ok, notprimary, busy, forward, next_vs, client_invoke}
use lab.Rsm.Replicas.{
  Executes, after, IsAt, World, call_node, InStep, Executed, call_node-InStep, execute-some,
}

module _ {A : Type 0} (procs : ℕ → Option (Bytes → A → ℕ × Bytes × A)) where
  -- What the loop over the view leaves, where `w` was the world before.
  record Forwarded (me : Bytes) (mems : List Bytes) (vs : Viewstamp) (old new : A) (w : World procs)
      (out : Bool × World procs) : Type 0 where
    in_step : InStep procs vs old new out.1
    executed : out.0 ≡ true → Executed procs me mems vs new out.1
    kept :
        (other : Bytes) (r : Rsm A)
        → lookup other w ≡ some r
        → IsAt procs (next_vs vs) new r
        → (r' : Rsm A) × (lookup other out.1 ≡ some r') × IsAt procs (next_vs vs) new r'

  forward-Forwarded :
      (up : Bytes → Bool) (me : Bytes) (proc : ℕ) (req : Bytes) (vs : Viewstamp) (app : A)
      → vs.seqno < 2 ^ 32
      → (x : Executes procs proc req app) → (mems : List Bytes) (w : World procs)
      → InStep procs vs app (after procs proc req app x) w
      → Forwarded me mems vs app
          (after procs proc req app x)
          w
          (forward (λ node. call_node procs up node proc (next_vs vs) req) me mems w)
  unfolding forward
  forward-Forwarded up me proc req vs app small x [] w s = record {
    in_step = s;
    executed = λ e node h k. absurd (cc h);
    kept = λ other r f a. (r, f, a);
  }
  forward-Forwarded up me proc req vs app small x (node ∷ mems) w s =
      elim (Bool-cases (node == me)) [
        | inl mine ↦
            let f = forward-Forwarded up me proc req vs app small x mems w s in
            rw mine (record {
              in_step = f.in_step;
              executed = λ e other h k.
                  f.executed e other
                    (elim (Bool-cases (node == other)) [
                      | inr differ ↦
                          (let h' : (if node == other then true else isamember other mems) ≡ true =
                              h in
                            rw differ at h')
                      | inl same ↦
                          absurd
                            (cc (sym mine ∙ ap (λ y. y == me) ((str_eq_iff node other).0 same) ∙ k))
                    ])
                    k;
              kept = f.kept;
            })
        | inr other_node ↦
            let c = call_node-InStep procs up node proc req vs app w small x s in
            let w' = (call_node procs up node proc (next_vs vs) req w).1 in
            elim (Bool-cases (call_node procs up node proc (next_vs vs) req w).0) [
              | inr lost ↦
                  rw (other_node, lost)
                    (record { in_step = c.0; executed = λ e. absurd (cc e); kept = c.2 })
              | inl reached ↦
                  let f = forward-Forwarded up me proc req vs app small x mems w' c.0 in
                  rw (other_node, reached)
                    (record {
                      in_step = f.in_step;
                      executed = λ e other h k. elim (Bool-cases (node == other)) [
                        | inr differ ↦
                            f.executed e other
                              (let h' : (if node == other then true else isamember other mems)
                                    ≡ true =
                                  h in
                                rw differ at h')
                              k
                        | inl same ↦
                            let here = c.1 reached in
                            let found = f.kept node here.0 here.1 here.2 in
                            subst
                              (λ y.
                                (r : Rsm A) × (lookup y
                                    (forward (λ n. call_node procs up n proc (next_vs vs) req) me
                                      mems w').1
                                  ≡ some r)
                                × IsAt procs (next_vs vs) (after procs proc req app x) r)
                              ((str_eq_iff node other).0 same) found
                      ];
                      kept = λ other r q a. let d = c.2 other r q a in f.kept other d.0 d.1 d.2;
                    })
            ]
      ]

  -- What `client_invoke` comes to, where `s` was the primary before.
  pub record Agrees (proc : ℕ) (req : Bytes) (s : Rsm A) (x : Executes procs proc req s.app)
      (out : ClientStatus × Bytes × Rsm A × World procs) : Type 0 where
    pub in_step : InStep procs s.myvs s.app (after procs proc req s.app x) out.3
    pub answered :
        out.0 ≡ ok
        → (out.2.myvs ≡ next_vs s.myvs)
          × (out.2.app ≡ after procs proc req s.app x)
          × (out.1 ≡ (put_string (x.fn req s.app).1 (put_u32 (x.fn req s.app).0 fresh)).body)
          × Executed procs s.cfg.me
              (get_curview s.cfg).0
              s.myvs
              (after procs proc req s.app x)
              out.3
    pub refused : out.0 ≢ ok → (out.2.myvs ≡ s.myvs) × (out.2.app ≡ s.app)

  -- A client's request at any node, where the nodes that can be reached are in step with it: the
  -- call returns, and every node is then where it was or exactly one request further, in the state
  -- that the request leads to. If the client gets an answer, it is the answer of this execution,
  -- and the primary and every other member of the view have executed the request; if it does not,
  -- the node itself has not executed it. The status is not negative, and the reply is at least 2 kB
  -- below 2 GB.
  pub replicas_agree :
      (up : Bytes → Bool) (proc : ℕ) (req r : Bytes) (s : Rsm A) (w : World procs)
      → s.myvs.seqno < 2 ^ 32
      → (x : Executes procs proc req s.app)
      → InStep procs s.myvs s.app (after procs proc req s.app x) w
      → (out : ClientStatus × Bytes × Rsm A × World procs) × (client_invoke procs
            (call_node procs up)
            proc
            req
            r
            s
            w
          ≡ some out)
        × Agrees proc req s x out
  unfolding client_invoke
  replicas_agree up proc req r s w small x h =
      let (mems, cfg) = get_curview s.cfg in
      let out =
        forward (λ node. call_node procs up node proc (next_vs s.myvs) req) s.cfg.me mems w in
      let f = forward-Forwarded up s.cfg.me proc req s.myvs s.app small x mems w h in
      let idle : (st : ClientStatus) → st ≢ ok → Agrees proc req s x (st, r, s, w) =
        λ st n. record { in_step = h; answered = λ e. absurd (n e); refused = λ _. (refl, refl) } in
      elim (Bool-cases s.inviewchange) [
        | inl changing ↦ ((busy, r, s, w), rw changing refl, idle busy (λ e. absurd (cc e)))
        | inr settled ↦ elim (Bool-cases (s.primary == s.cfg.me)) [
          | inr other ↦ (
            (notprimary, r, s, w),
            rw (settled, other) refl,
            idle notprimary (λ e. absurd (cc e)),
          )
          | inl primary ↦ elim (Bool-cases out.0) [
            | inr lost ↦ (
              (busy, r, record s { cfg = cfg }, out.1),
              simp (settled, primary, lost),
              record {
                in_step = f.in_step;
                answered = λ e. absurd (cc e);
                refused = λ _. (refl, refl);
              },
            )
            | inl reached ↦
                let run = execute-some procs proc req s.app x in
                let rep = (put_string (x.fn req s.app).1 (put_u32 (x.fn req s.app).0 fresh)).body in
                (
                  (
                    ok,
                    rep,
                    record s {
                      cfg = cfg;
                      last_myvs = s.myvs;
                      myvs = next_vs s.myvs;
                      app = after procs proc req s.app x;
                    },
                    out.1,
                  ),
                  simp (settled, primary, reached, run),
                  record {
                    in_step = f.in_step;
                    answered = λ _. (refl, refl, refl, f.executed reached);
                    refused = λ n. absurd (n refl);
                  },
                )
          ]
        ]
      ]
