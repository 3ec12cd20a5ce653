-- ===== src/Rpc/Fifo/Order.antt =====
-- What comes out of the queue, in which order.
use lab.Base.{
  ℕ, ◌≤◌, ◌≡◌, ◌≢◌, sym, ap, ◌∙◌, inl, inr, Bool, ◌||◌, none, some, List, [], ◌∷◌, ◌++◌, ◌==◌,
  nat_key, ltb, length, arith, Bool-cases, List-cases, append_assoc, length-append, append-nil,
}
use lab.Rpc.Fifo.{Fifo, Enq, queued, waits, full, enq, deq}

-- A call at the queue: `put e b` is `enq(e, b)`, `take` is `deq`. A call that waits is one
-- turn of its loop.
pub data Call (T : Type 0) : Type 0 where
  put : T → Bool → Call T
  take : Call T

-- The elements that go in, those that come out, and the queue.
pub record Run (T : Type 0) : Type 0 where
  pub ins : List T
  pub outs : List T
  pub queue : Fifo T

module _ {T : Type 0} where
  abbrev pub entered : T → Enq → List T
  entered e queued = e ∷ []
  entered e waits = []
  entered e full = []

  unfoldable pub turn : Call T → Run T → Run T
  turn (put e b) r =
      let (how, q) = enq e b r.queue in record r { ins = r.ins ++ entered e how; queue = q }
  turn take r = elim (deq r.queue) [
    | none ↦ r
    | some (e, told, q) ↦ record r { outs = r.outs ++ e ∷ []; queue = q }
  ]

  abbrev pub turns : List (Call T) → Run T → Run T
  turns [] r = r
  turns (c ∷ cs) r = turns cs (turn c r)

  -- What came out, and then what is queued, is what went in; the limit is kept.
  pub record InOrder (max : ℕ) (r : Run T) : Type 0 where
    pub order : r.outs ++ r.queue.q_ ≡ r.ins
    pub limit : r.queue.max_ ≡ max
    pub bound : max ≢ 0 → length r.queue.q_ ≤ max

  turn-InOrder : (max : ℕ) (c : Call T) (r : Run T) → InOrder max r → InOrder max (turn c r)
  unfolding turn enq deq
  turn-InOrder max (put e b) r h =
      elim (Bool-cases (r.queue.max_ == 0 || ltb (length r.queue.q_) r.queue.max_)) [
        | inl space ↦ rw space (record {
          order = sym (append_assoc r.outs r.queue.q_ (e ∷ [])) ∙ ap (λ l. l ++ e ∷ []) h.order;
          limit = h.limit;
          bound = λ n. ground (arith, h.limit, length-append r.queue.q_ (e ∷ []));
        })
        | inr none_left ↦ elim (Bool-cases b) [
          | inl y ↦
              rw (none_left, y)
                (record {
                  order = h.order ∙ sym (append-nil r.ins);
                  limit = h.limit;
                  bound = h.bound;
                })
          | inr n ↦
              rw (none_left, n)
                (record {
                  order = h.order ∙ sym (append-nil r.ins);
                  limit = h.limit;
                  bound = h.bound;
                })
        ]
      ]
  turn-InOrder max take r h = elim (List-cases r.queue.q_) [
    | inl empty ↦ rw (empty, turn, deq) h
    | inr (e, es, q) ↦
        rw (q, turn, deq)
          (record {
            order = append_assoc r.outs (e ∷ []) es ∙ sym (ap (λ l. r.outs ++ l) q) ∙ h.order;
            limit = h.limit;
            bound = λ n. omega (arith, h.bound n, ap length q);
          })
  ]

  -- Whatever calls are made at a queue, the elements come out in the order in which they went in,
  -- none is lost or comes twice, and no more than the limit are queued, where there is one.
  pub fifo_order :
      (max : ℕ) (cs : List (Call T)) (r : Run T) → InOrder max r → InOrder max (turns cs r)
  fifo_order max [] r h = h
  fifo_order max (c ∷ cs) r h = fifo_order max cs (turn c r) (turn-InOrder max c r h)
