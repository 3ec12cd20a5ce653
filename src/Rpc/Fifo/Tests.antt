-- ===== src/Rpc/Fifo/Tests.antt =====
-- Runs of the queue, and the theorem at a concrete input.
use lab.Base.{ℕ, ◌≡◌, refl, [], ◌∷◌, true, false, arith, nat_key}
use lab.Rpc.Fifo.{enq, full}
use lab.Rpc.Fifo.Order.{put, take, Run, turns, InOrder, fifo_order}

-- A full queue refuses a third element.
enq_refused : (enq {T = ℕ} 7 false (record { q_ = 5 ∷ 6 ∷ []; max_ = 2 })).0 ≡ full
unfolding enq
enq_refused = refl

abbrev empty : Run ℕ
empty = record { ins = []; outs = []; queue = record { q_ = []; max_ = 2 } }

fifo_order_example :
    InOrder 2 (turns (put 5 true ∷ put 6 true ∷ put 7 false ∷ take ∷ put 8 true ∷ []) empty)
fifo_order_example =
    fifo_order 2 (put 5 true ∷ put 6 true ∷ put 7 false ∷ take ∷ put 8 true ∷ []) empty
      (record { order = refl; limit = refl; bound = λ n. omega arith })
