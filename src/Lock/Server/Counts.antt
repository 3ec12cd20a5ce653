-- ===== src/Lock/Server/Counts.antt =====
-- What `stat` reports.
use lab.Base.{
  ℕ, ◌+◌, ◌%◌, ◌^◌, ◌<◌, ◌≡◌, refl, ◌∙◌, ◌&&◌, not, none, List, [], ◌∷◌, arith, ◌==◌, if◌then◌else◌,
  nat_key,
}
use lab.Base.Map.{Map, lookup, insert, has, at, lookup-insert}
use lab.Lock.Server.{LockServer, init, stat, count_up, wake, acquire, release}
use lab.Lock.Server.Exclusion.{Event, acquires, wakes, releases, step, run}

-- 1 where the event registers lock `l` for client `c`.
pub grant : ℕ → ℕ → Event → LockServer → ℕ
grant c l (acquires d u k) s = if (d == c && k == l) && not (has k s.lock_client) then 1 else 0
grant c l (wakes d u k) s = if (d == c && k == l) && not (has k s.lock_client) then 1 else 0
grant c l (releases d u k) s = 0

pub grants : ℕ → ℕ → List Event → LockServer → ℕ
grants c l [] s = 0
grants c l (e ∷ es) s = grant c l e s + grants c l es (step e s)

-- The count that the two-level map holds.
count_of : ℕ → ℕ → Map ℕ (Map ℕ ℕ) → ℕ
count_of c l m = at l 0 (at c [] m)

stat_lem : (c l : ℕ) (s : LockServer) → stat c l s ≡ count_of c l s.clt_lock_count
unfolding stat count_of lookup
stat_lem c l s = ground arith

lookup_nil : (l : ℕ) → lookup {V = ℕ} l [] ≡ none
unfolding lookup
lookup_nil l = refl

count_up_lem :
    (d k c l : ℕ) (m : Map ℕ (Map ℕ ℕ))
    → count_of c l (count_up d k m)
      ≡ (if d == c && k == l then (count_of c l m + 1) % 2 ^ 32 else count_of c l m)
unfolding count_up count_of
count_up_lem d k c l m =
    let own = at d [] m in
    ground (
      arith,
      lookup-insert d c (insert k ((at k 0 own + 1) % 2 ^ 32) own) m,
      lookup-insert d c (insert k 1 own) m,
      lookup-insert d c (insert k 1 []) m,
      lookup-insert k l ((at k 0 own + 1) % 2 ^ 32) own,
      lookup-insert {V = ℕ} k l 1 own,
      lookup-insert {V = ℕ} k l 1 [],
      lookup_nil l,
    )

wake-count :
    (c l d u k : ℕ) (s : LockServer)
    → count_of c l (wake d u k s).1.clt_lock_count ≡ (
        if (d == c && k == l) && not (has k s.lock_client)
        then (count_of c l s.clt_lock_count + 1) % 2 ^ 32
        else count_of c l s.clt_lock_count)
unfolding wake
wake-count c l d u k s = ground (arith, count_up_lem d k c l s.clt_lock_count)

step-count :
    (c l : ℕ) (e : Event) (s : LockServer)
    → count_of c l (step e s).clt_lock_count % 2 ^ 32
      ≡ (count_of c l s.clt_lock_count + grant c l e s) % 2 ^ 32
unfolding step grant acquire release
step-count c l (acquires d u k) s = ground (arith, wake-count c l d u k s)
step-count c l (wakes d u k) s = ground (arith, wake-count c l d u k s)
step-count c l (releases d u k) s = ground arith

run-count :
    (c l : ℕ) (es : List Event) (s : LockServer)
    → count_of c l (run es s).clt_lock_count % 2 ^ 32
      ≡ (count_of c l s.clt_lock_count + grants c l es s) % 2 ^ 32
unfolding run grants
run-count c l [] s = omega arith
run-count c l (e ∷ es) s = omega (arith, run-count c l es (step e s), step-count c l e s)

step-small :
    (c l : ℕ) (e : Event) (s : LockServer)
    → count_of c l s.clt_lock_count < 2 ^ 32
    → count_of c l (step e s).clt_lock_count < 2 ^ 32
unfolding step acquire release
step-small c l (acquires d u k) s h = ground (arith, wake-count c l d u k s)
step-small c l (wakes d u k) s h = ground (arith, wake-count c l d u k s)
step-small c l (releases d u k) s h = ground arith

run-small :
    (c l : ℕ) (es : List Event) (s : LockServer)
    → count_of c l s.clt_lock_count < 2 ^ 32
    → count_of c l (run es s).clt_lock_count < 2 ^ 32
unfolding run
run-small c l [] s h = h
run-small c l (e ∷ es) s h = run-small c l es (step e s) (step-small c l e s h)

-- After any run from the start, `stat` reports how often the server registered the lock for the
-- client, modulo 2 ^ 32. An `acquire` by the holder itself is not counted.
pub stat_counts : (c l : ℕ) (es : List Event) → stat c l (run es init) ≡ grants c l es init % 2 ^ 32
unfolding count_of lookup
stat_counts c l es =
    stat_lem c l (run es init)
    ∙ omega (arith, run-count c l es init, run-small c l es init (omega arith))
