-- ===== src/Lock/Cache.antt =====
-- The caching lock server (lock_server_cache.h, lock_server_cache.cc): the RPC handlers and the
-- rounds of the revoker and retryer threads. `int` and `unsigned long long` are bit patterns.
-- `operator[]` on a missing key leaves an entry behind, which `touch` writes out.
pub mod Holder
pub mod Revoke
pub mod Retry
pub mod Counts
pub mod State
mod Tests
use lab.Base.{
  ℕ, zero, suc, ◌+◌, ◌-◌, ◌%◌, ◌^◌, Bool, true, false, ◌&&◌, ◌||◌, not, Option, none, some, List,
  [], ◌∷◌, ◌++◌, ◌==◌, if◌then◌else◌, nat_key,
}
use lab.Base.Bytes.{Bytes}
use lab.Base.Map.{Map, lookup, insert, has, at, touch}

-- `lock_status`, kept as an `int`.
abbrev pub free : ℕ
free = 0

abbrev pub locked : ℕ
locked = 1

abbrev pub revoking : ℕ
revoking = 2

-- -1 as `int` and as `unsigned long long`.
abbrev pub no_clid : ℕ
no_clid = 2 ^ 32 - 1

abbrev pub no_seqid : ℕ
no_seqid = 2 ^ 64 - 1

pub record RevokeInfo : Type 0 where
  pub lid : ℕ
  pub clid : ℕ
  pub seqid : ℕ

-- The members that are state. A connection stands for the host that it was made to.
pub record LockServerCache : Type 0 where
  pub m_lock_status : Map ℕ ℕ
  pub m_clid_rpcc : Map ℕ Bytes
  pub m_clid_host : Map ℕ Bytes
  pub m_lock_clid : Map ℕ ℕ
  pub m_lock_retrylist : Map ℕ (List ℕ)
  pub l_revoke : List RevokeInfo
  pub m_lock_clid_count : Map ℕ (Map ℕ ℕ)
  pub m_lock_seqid : Map ℕ ℕ

abbrev pub init : LockServerCache
init = record {
  m_lock_status = [];
  m_clid_rpcc = [];
  m_clid_host = [];
  m_lock_clid = [];
  m_lock_retrylist = [];
  l_revoke = [];
  m_lock_clid_count = [];
  m_lock_seqid = [];
}

-- `lock_protocol::xxstatus`, the values that the handlers return.
pub data Status : Type 0 where
  ok : Status
  retry : Status
  rpcerr : Status

-- `bind` to the host is assumed to succeed: the handler ends the process otherwise.
unfoldable pub subscribe : ℕ → Bytes → LockServerCache → LockServerCache
subscribe clid host s = record s {
  m_clid_host = insert clid host s.m_clid_host;
  m_clid_rpcc = insert clid host s.m_clid_rpcc;
}

-- The entries of a lock that is seen for the first time.
unfoldable pub create_lock : ℕ → LockServerCache → LockServerCache
create_lock lid s = if has lid s.m_lock_status then s else record s {
  m_lock_status = insert lid free s.m_lock_status;
  m_lock_retrylist = insert lid [] s.m_lock_retrylist;
  m_lock_seqid = insert lid no_seqid s.m_lock_seqid;
  m_lock_clid = insert lid no_clid s.m_lock_clid;
}

-- One revoke request for each tenure: the lock becomes REVOKING and its holder is noted.
unfoldable pub request_revoke : ℕ → LockServerCache → LockServerCache
request_revoke lid s = if at lid free s.m_lock_status == revoking then s else record s {
  m_lock_status = insert lid revoking s.m_lock_status;
  m_lock_clid = touch lid 0 s.m_lock_clid;
  m_lock_seqid = touch lid 0 s.m_lock_seqid;
  l_revoke =
      s.l_revoke
      ++ record { lid = lid; clid = at lid 0 s.m_lock_clid; seqid = at lid 0 s.m_lock_seqid } ∷ [];
}

-- The acquire count; `int` wraps.
unfoldable pub count_up : ℕ → ℕ → Map ℕ (Map ℕ ℕ) → Map ℕ (Map ℕ ℕ)
count_up clid lid m =
    let own = at lid [] m in
    if has clid own
    then insert lid (insert clid ((at clid 0 own + 1) % 2 ^ 32) own) m
    else insert lid (insert clid 1 own) m

unfoldable pub grant : ℕ → ℕ → ℕ → LockServerCache → LockServerCache
grant clid lid seqid s = record s {
  m_lock_clid = insert lid clid s.m_lock_clid;
  m_lock_seqid = insert lid seqid s.m_lock_seqid;
  m_lock_status = insert lid locked s.m_lock_status;
  m_lock_clid_count = count_up clid lid s.m_lock_clid_count;
  m_lock_retrylist = touch lid [] s.m_lock_retrylist;
}

abbrev pub is_empty {ℓ} : {A : Type ℓ} → List A → Bool
is_empty [] = true
is_empty (x ∷ xs) = false

unfoldable pub push_retry : ℕ → ℕ → LockServerCache → LockServerCache
push_retry clid lid s = record s {
  m_lock_retrylist = insert lid (at lid [] s.m_lock_retrylist ++ clid ∷ []) s.m_lock_retrylist;
}

-- `acquire` with the mutex held.
unfoldable pub acquire_locked : ℕ → ℕ → ℕ → LockServerCache → Status × LockServerCache
acquire_locked clid lid seqid s =
    if not (has clid s.m_clid_rpcc)
    then (rpcerr, s)
    else if at lid free s.m_lock_status == free
    then (
      ok,
      if is_empty (at lid [] s.m_lock_retrylist)
          then grant clid lid seqid s
          else request_revoke lid (grant clid lid seqid s),
    )
    else (retry, push_retry clid lid (request_revoke lid s))

-- `none` where the assertion fails and the process ends.
unfoldable pub acquire : ℕ → ℕ → ℕ → LockServerCache → Option (Status × LockServerCache)
acquire clid lid seqid s =
    let s' = create_lock lid s in
    if has clid s'.m_clid_rpcc then some (acquire_locked clid lid seqid s') else none

unfoldable pub give_back : ℕ → LockServerCache → LockServerCache
give_back lid s = record s {
  m_lock_clid = insert lid no_clid s.m_lock_clid;
  m_lock_seqid = insert lid no_seqid s.m_lock_seqid;
  m_lock_status = insert lid free s.m_lock_status;
}

unfoldable pub release_locked : ℕ → ℕ → ℕ → LockServerCache → Status × LockServerCache
release_locked clid lid again s =
    if not (has clid s.m_clid_rpcc)
    then (rpcerr, s)
    else if at lid 0 s.m_lock_clid == clid
    then (ok, if again == 1 then push_retry clid lid (give_back lid s) else give_back lid s)
    else (rpcerr, record s { m_lock_clid = touch lid 0 s.m_lock_clid })

-- The parameter `retry` of the source is `again`.
unfoldable pub release : ℕ → ℕ → ℕ → LockServerCache → Option (Status × LockServerCache)
release clid lid again s =
    if has clid s.m_clid_rpcc then some (release_locked clid lid again s) else none

-- The count, and what reading it leaves behind.
unfoldable pub stat : ℕ → ℕ → LockServerCache → Option (ℕ × LockServerCache)
stat clid lid s =
    let own = at lid [] s.m_lock_clid_count in
    if has clid s.m_clid_rpcc
    then some (
      if has clid own then at clid 0 own else 0,
      record s { m_lock_clid_count = touch lid [] s.m_lock_clid_count },
    )
    else none

-- What the revoker does with the oldest request: the call to make, if the request is still good.
-- The first test compares the client with FREE, as the source does.
unfoldable pub revoke_one : RevokeInfo → LockServerCache → Option RevokeInfo × LockServerCache
revoke_one info s =
    let holder = at info.lid 0 s.m_lock_clid in
    let s' = record s { m_lock_clid = touch info.lid 0 s.m_lock_clid } in
    if holder == free then (none, s') else if not (holder == info.clid) then (none, s') else (
      if at info.lid 0 s.m_lock_seqid == info.seqid then some info else none,
      record s' { m_lock_seqid = touch info.lid 0 s.m_lock_seqid },
    )

-- A round of the revoker; with no request it waits. Only the primary calls the client.
unfoldable pub revoker : Bool → LockServerCache → Option RevokeInfo × LockServerCache
revoker amiprimary s = elim s.l_revoke [
  | [] ↦ (none, s)
  | info ∷ rest ↦
      let (call, s') = revoke_one info (record s { l_revoke = rest }) in
      (if amiprimary then call else none, s')
]

-- `findFreeLocks`, in the order of the map.
unfoldable pub find_free_locks : Map ℕ ℕ → List ℕ
find_free_locks [] = []
find_free_locks ((lid, st) ∷ m) =
    let rest = find_free_locks m in if st == free then lid ∷ rest else rest

-- The retryer's walk over the free locks: the first waiter of each is taken from its list.
unfoldable pub take_waiters : List ℕ → Map ℕ ℕ → Map ℕ (List ℕ) → Map ℕ ℕ × Map ℕ (List ℕ)
take_waiters [] calls lists = (calls, lists)
take_waiters (lid ∷ lids) calls lists = elim (at lid [] lists) [
  | [] ↦ take_waiters lids calls (touch lid [] lists)
  | clid ∷ rest ↦ take_waiters lids (insert lid clid calls) (insert lid rest lists)
]

-- A round of the retryer: the clients to call, by lock. With no free lock it waits.
unfoldable pub retryer : Bool → LockServerCache → Map ℕ ℕ × LockServerCache
retryer amiprimary s =
    let (calls, lists) = take_waiters (find_free_locks s.m_lock_status) [] s.m_lock_retrylist in
    (if amiprimary then calls else [], record s { m_lock_retrylist = lists })
