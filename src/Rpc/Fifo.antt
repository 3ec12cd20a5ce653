-- ===== src/Rpc/Fifo.antt =====
-- The queue of jobs (rpc/fifo.h), and the pool that is fed from it (rpc/thr_pool.cc).
pub mod Order
mod Tests
use lab.Base.{
  ℕ, ◌+◌, ◌*◌, Bool, true, false, ◌&&◌, ◌||◌, Option, none, some, List, [], ◌∷◌, ◌++◌, ◌==◌,
  if◌then◌else◌, nat_key, ltb, length,
}

-- `q_`, and `max_` with 0 for no limit.
pub record Fifo (T : Type 0) : Type 0 where
  pub q_ : List T
  pub max_ : ℕ

-- What `enq` comes to. `waits` is the wait for space, after which the loop tries again.
pub data Enq : Type 0 where
  queued : Enq
  waits : Enq
  full : Enq

module _ {T : Type 0} where
  unfoldable pub fifo : ℕ → Fifo T
  fifo limit = record { q_ = []; max_ = limit }

  unfoldable pub size : Fifo T → Bool
  size s = ltb 0 (length s.q_)

  unfoldable pub enq : T → Bool → Fifo T → Enq × Fifo T
  enq e blocking s =
      if s.max_ == 0 || ltb (length s.q_) s.max_
      then (queued, record s { q_ = s.q_ ++ e ∷ [] })
      else (if blocking then waits else full, s)

  -- `none` is the wait for an element, after which the loop tries again. The element, and
  -- whether the waiting threads are told that there is space.
  unfoldable pub deq : Fifo T → Option (T × Bool × Fifo T)
  deq s = elim s.q_ [
    | [] ↦ none
    | e ∷ es ↦ some (e, ltb 0 s.max_ && ltb (length es) s.max_, record s { q_ = es })
  ]

-- A job is `none` where its function is null, which ends the thread that takes it.
module _ {J : Type 0} where
  -- The queue of a pool with `sz` threads.
  unfoldable pub thr_pool : ℕ → Fifo (Option J)
  thr_pool sz = fifo (100 * sz)

  -- `addJob` and `addObjJob` of a pool that is made with `blockadd`.
  unfoldable pub add_job : Bool → J → Fifo (Option J) → Enq × Fifo (Option J)
  add_job blockadd j s = enq (some j) blockadd s

  -- The destructor's loop: a job that ends a thread, for each of the threads.
  unfoldable pub add_pill : Fifo (Option J) → Enq × Fifo (Option J)
  add_pill s = enq none true s

  -- The job that is taken, and whether the thread goes on.
  unfoldable pub take_job : Fifo (Option J) → Option (Option J × Bool × Fifo (Option J))
  take_job s = elim (deq s) [
    | none ↦ none
    | some (j, told, t) ↦ some (j, elim j [ none ↦ false | some f ↦ true ], t)
  ]
