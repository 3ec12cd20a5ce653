-- ===== src/Lock/Client.antt =====
-- The locks that a client keeps (lock_client_cache.h, lock_client_cache.cc). A thread is a
-- number, and so is the condition that it waits at. The lock server answers OK or RETRY.
pub mod Threads
pub mod Acquired
pub mod Served
pub mod Safe
mod Tests
use lab.Base.{
  ℕ, ◌+◌, ◌-◌, ◌%◌, ◌^◌, Bool, true, false, ◌||◌, not, Option, none, some, List, [], ◌∷◌, ◌++◌,
  ◌==◌, if◌then◌else◌, nat_key, ltb,
}
use lab.Base.Map.{Map, lookup, insert, erase, has, at, touch}

-- `lock_status`.
abbrev pub absent : ℕ
absent = 0

abbrev pub free : ℕ
free = 1

abbrev pub locked : ℕ
locked = 2

abbrev pub retrying : ℕ
retrying = 3

abbrev pub acquiring : ℕ
acquiring = 4

abbrev pub releasing : ℕ
releasing = 5

-- -1 as `pthread_t` and as `unsigned long long`.
abbrev pub no_thread : ℕ
no_thread = 2 ^ 32 - 1

abbrev pub no_seqid : ℕ
no_seqid = 2 ^ 64 - 1

pub record LockClientCache : Type 0 where
  pub seqid : ℕ
  pub m_lock_thread : Map ℕ ℕ
  pub m_lock_status : Map ℕ ℕ
  pub m_lock_waitlist : Map ℕ (List ℕ)
  pub m_lock_seqid : Map ℕ ℕ
  pub m_cond_waiting : Map ℕ Bool
  pub m_lock_retry : Map ℕ Bool
  pub l_revoke : List ℕ
  pub m_waiting_revoke : Map ℕ ℕ
  pub l_released : List ℕ

abbrev pub init : LockClientCache
init = record {
  seqid = 1;
  m_lock_thread = [];
  m_lock_status = [];
  m_lock_waitlist = [];
  m_lock_seqid = [];
  m_cond_waiting = [];
  m_lock_retry = [];
  l_revoke = [];
  m_waiting_revoke = [];
  l_released = [];
}

-- The entries of a lock that is seen for the first time.
unfoldable pub create_lock : ℕ → LockClientCache → LockClientCache
create_lock lid s = if has lid s.m_lock_status then s else record s {
  m_lock_status = insert lid absent s.m_lock_status;
  m_lock_seqid = insert lid no_seqid s.m_lock_seqid;
  m_waiting_revoke = insert lid no_seqid s.m_waiting_revoke;
  m_lock_thread = insert lid no_thread s.m_lock_thread;
  m_lock_waitlist = insert lid [] s.m_lock_waitlist;
  m_lock_retry = insert lid false s.m_lock_retry;
}

-- Where `acquire` gets to: it calls the lock server with a number, it returns OK, or its thread
-- waits to be woken.
pub data Acquire : Type 0 where
  calls : ℕ → Acquire
  granted : Acquire
  waits : Acquire

abbrev pub set_status : ℕ → ℕ → LockClientCache → LockClientCache
set_status lid st s = record s { m_lock_status = insert lid st s.m_lock_status }

-- From the label `acqu` on, for thread `t`.
unfoldable pub acqu : ℕ → ℕ → LockClientCache → Acquire × LockClientCache
acqu t lid s =
    let st = at lid absent s.m_lock_status in
    let next = (s.seqid + 1) % 2 ^ 64 in
    let seen = record s { m_lock_thread = touch lid 0 s.m_lock_thread } in
    if st == absent
    then (
      calls next,
      record (set_status lid acquiring s) {
        seqid = next;
        m_cond_waiting = insert t false s.m_cond_waiting;
      },
    )
    else if at lid 0 s.m_lock_thread == t
    then (granted, seen)
    else if st == free
    then (
      granted,
      record (set_status lid locked s) { m_lock_thread = insert lid t s.m_lock_thread },
    )
    else (
      waits,
      record seen {
        m_lock_waitlist = insert lid (at lid [] s.m_lock_waitlist ++ t ∷ []) s.m_lock_waitlist;
        m_cond_waiting = insert t true s.m_cond_waiting;
      },
    )

unfoldable pub acquire : ℕ → ℕ → LockClientCache → Acquire × LockClientCache
acquire t lid s = acqu t lid (create_lock lid s)

-- A thread that waited behind others is woken.
unfoldable pub woken : ℕ → ℕ → LockClientCache → Acquire × LockClientCache
woken t lid s = acqu t lid (record s { m_cond_waiting = erase t s.m_cond_waiting })

-- The server's answer is OK. The number that is noted is the one that the client is at by now.
unfoldable pub reply_ok : ℕ → ℕ → LockClientCache → LockClientCache
reply_ok t lid s =
    let u = record (set_status lid locked s) {
      m_cond_waiting = erase t s.m_cond_waiting;
      m_lock_thread = insert lid t s.m_lock_thread;
      m_lock_seqid = insert lid s.seqid s.m_lock_seqid;
    } in
    if at lid 0 s.m_waiting_revoke == s.seqid
    then record u {
      l_revoke = s.l_revoke ++ lid ∷ [];
      m_waiting_revoke = insert lid no_seqid s.m_waiting_revoke;
    }
    else record u { m_waiting_revoke = touch lid 0 s.m_waiting_revoke }

-- The server's answer is RETRY.
unfoldable pub reply_retry : ℕ → ℕ → LockClientCache → Acquire × LockClientCache
reply_retry t lid s =
    if at lid false s.m_lock_retry
    then (
      calls s.seqid,
      record (set_status lid acquiring s) { m_lock_retry = insert lid false s.m_lock_retry },
    )
    else (
      waits,
      record (set_status lid retrying s) {
        m_lock_retry = touch lid false s.m_lock_retry;
        m_lock_waitlist = insert lid (t ∷ at lid [] s.m_lock_waitlist) s.m_lock_waitlist;
        m_cond_waiting = insert t true s.m_cond_waiting;
      },
    )

-- The thread that was told to retry is woken, and calls again.
unfoldable pub resume : ℕ → LockClientCache → Acquire × LockClientCache
resume lid s = (calls s.seqid, set_status lid acquiring s)

-- `listContains`.
unfoldable pub list_contains : List ℕ → ℕ → Bool
list_contains [] v = false
list_contains (x ∷ xs) v = let rest = list_contains xs v in if x == v then true else rest

-- `std::list::remove`.
unfoldable pub remove_all : ℕ → List ℕ → List ℕ
remove_all v [] = []
remove_all v (x ∷ xs) = let rest = remove_all v xs in if x == v then rest else x ∷ rest

abbrev pub rest_of : List ℕ → List ℕ
rest_of [] = []
rest_of (x ∷ xs) = xs

-- The thread at the front of the list is woken, if there is one.
unfoldable pub release : ℕ → ℕ → LockClientCache → LockClientCache
release t lid s =
    let u = record s {
      m_lock_thread = insert lid no_thread s.m_lock_thread;
      m_lock_retry = insert lid false s.m_lock_retry;
    } in
    if not (at lid 0 s.m_lock_thread == t)
    then record s { m_lock_thread = touch lid 0 s.m_lock_thread }
    else if list_contains s.l_revoke lid
    then record (set_status lid releasing u) {
      m_waiting_revoke = insert lid no_seqid s.m_waiting_revoke;
      m_lock_seqid = insert lid no_seqid s.m_lock_seqid;
      l_released = s.l_released ++ lid ∷ [];
      l_revoke = remove_all lid s.l_revoke;
    }
    else record (set_status lid free u) {
      m_lock_waitlist = insert lid (rest_of (at lid [] s.m_lock_waitlist)) s.m_lock_waitlist;
    }

-- How `revoke` ends: it waits for an `acquire` that is on its way, it returns with `map_lock`
-- still held, it returns, or its assertion fails.
pub data Revoked : Type 0 where
  waits_acquire : Revoked
  returned_locked : Revoked
  returned : Revoked
  aborted : Revoked

unfoldable pub revoke : ℕ → ℕ → LockClientCache → Revoked × LockClientCache
revoke lid seqid s =
    let st = at lid absent s.m_lock_status in
    let own = at lid 0 s.m_lock_seqid in
    if st == acquiring
    then (waits_acquire, s)
    else if st == absent || st == releasing
    then (returned_locked, record s { m_lock_status = touch lid absent s.m_lock_status })
    else if own == seqid
    then (if st == free
        then (
          returned,
          record (set_status lid releasing s) { l_released = s.l_released ++ lid ∷ [] },
        )
        else (returned, record s { l_revoke = s.l_revoke ++ lid ∷ [] }))
    else if ltb own seqid
    then (aborted, s)
    else (returned, record s { m_lock_seqid = touch lid 0 s.m_lock_seqid })

-- `none` is a lock that the client has never seen, where a null pointer is followed. The thread
-- that is woken, if any.
unfoldable pub retry : ℕ → LockClientCache → Option (Option ℕ × LockClientCache)
retry lid s = elim (lookup lid s.m_lock_waitlist) [
  | none ↦ none
  | some [] ↦ some (none, record s { m_lock_retry = insert lid true s.m_lock_retry })
  | some (cond ∷ conds) ↦
      if at lid absent s.m_lock_status == acquiring
      then some (none, record s { m_lock_retry = insert lid true s.m_lock_retry })
      else some (some cond, record s { m_lock_waitlist = insert lid conds s.m_lock_waitlist })
]

-- What a turn of the releaser comes to: it waits, its assertion fails, or it releases a lock at
-- the server, where the flag says that the client wants it back.
pub data Turn : Type 0 where
  idle : Turn
  failed : Turn
  releases : ℕ → Bool → Turn

unfoldable pub releaser : LockClientCache → Turn × LockClientCache
releaser s = elim s.l_released [
  | [] ↦ (idle, s)
  | lid ∷ lids ↦
      if at lid absent s.m_lock_status == releasing
      then (
        releases lid (elim (at lid [] s.m_lock_waitlist) [ [] ↦ false | cond ∷ conds ↦ true ]),
        record (set_status lid absent s) { l_released = lids },
      )
      else (failed, s)
]
