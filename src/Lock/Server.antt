-- ===== src/Lock/Server.antt =====
-- The blocking lock server (lock_server.h, lock_server.cc). A call that waits on `lock_free` is
-- left at its loop, and goes on by `wake`; the mutex makes each stretch in between one step.
pub mod Exclusion
pub mod Counts
mod Tests
use lab.Base.{
  ℕ, zero, suc, ◌+◌, ◌%◌, ◌^◌, Bool, true, false, ◌&&◌, ◌||◌, not, List, [], ◌∷◌, ◌==◌,
  if◌then◌else◌, nat_key,
}
use lab.Base.Map.{Map, lookup, insert, erase, has, at}

pub record LockServer : Type 0 where
  pub lock_client : Map ℕ ℕ
  pub lock_thread : Map ℕ ℕ
  pub clt_lock_count : Map ℕ (Map ℕ ℕ)

abbrev pub init : LockServer
init = record { lock_client = []; lock_thread = []; clt_lock_count = [] }

-- `lock_protocol::OK`, the one status that this server returns.
pub data Status : Type 0 where
  ok : Status

-- Where a call stands: it has returned, or it waits for `lock_free`.
pub data Progress : Type 0 where
  returned : Status → Progress
  waiting : Progress

unfoldable pub stat : ℕ → ℕ → LockServer → ℕ
stat clid lid s =
    if has clid s.clt_lock_count
    then (if has lid (at clid [] s.clt_lock_count)
        then at lid 0 (at clid [] s.clt_lock_count)
        else 0)
    else 0

-- The acquire count; `int` wraps.
unfoldable pub count_up : ℕ → ℕ → Map ℕ (Map ℕ ℕ) → Map ℕ (Map ℕ ℕ)
count_up clid lid m =
    let own = at clid [] m in
    if has clid m
    then (if has lid own
        then insert clid (insert lid ((at lid 0 own + 1) % 2 ^ 32) own) m
        else insert clid (insert lid 1 own) m)
    else insert clid (insert lid 1 []) m

-- `acquire` from the test of its loop on.
unfoldable pub wake : ℕ → ℕ → ℕ → LockServer → Progress × LockServer
wake clid tid lid s = if has lid s.lock_client then (waiting, s) else (
  returned ok,
  record {
    lock_client = insert lid clid s.lock_client;
    lock_thread = insert lid tid s.lock_thread;
    clt_lock_count = count_up clid lid s.clt_lock_count;
  },
)

-- The caller is the client and thread that the lock is registered for.
abbrev pub is_holder : ℕ → ℕ → ℕ → LockServer → Bool
is_holder clid tid lid s =
    has lid s.lock_client && at lid 0 s.lock_client == clid && at lid 0 s.lock_thread == tid

unfoldable pub acquire : ℕ → ℕ → ℕ → LockServer → Progress × LockServer
acquire clid tid lid s = if is_holder clid tid lid s then (returned ok, s) else wake clid tid lid s

unfoldable pub release : ℕ → ℕ → ℕ → LockServer → Status × LockServer
release clid tid lid s =
    if has lid s.lock_client
    then (if not (at lid 0 s.lock_client == clid) || not (at lid 0 s.lock_thread == tid)
        then (ok, s)
        else (
          ok,
          record s { lock_client = erase lid s.lock_client; lock_thread = erase lid s.lock_thread },
        ))
    else (ok, s)
