-- ===== src/Lock/Client/Threads.antt =====
-- A client's locks with the threads that use them.
use lab.Base.{
  ℕ, ◌+◌, ◌≤◌, ◌≡◌, ◌≢◌, ◌⊎◌, false, none, some, List, [], ◌∷◌, ◌==◌, if◌then◌else◌, nat_key,
}
use lab.Base.Map.{Map, lookup, insert, erase, at}
use lab.Lock.Client.{
  LockClientCache, Acquire, calls, granted, waits, absent, locked, retrying, acquiring, releasing,
  no_thread, acquire, woken, reply_ok, reply_retry, resume, release, revoke, retry, releaser,
}

-- The client with its threads: whose call of the lock server is on its way, and who waits to try
-- again, by lock.
pub record Client : Type 0 where
  pub cache : LockClientCache
  pub calling : Map ℕ ℕ
  pub sleeping : Map ℕ ℕ

-- What happens at the client: thread `t` acquires or releases a lock, or is woken where it waits
-- behind others; the lock server answers, or calls `revoke` and `retry`; the thread that
-- was told to retry is woken; the releaser has a turn.
pub data Event : Type 0 where
  acquires : ℕ → ℕ → Event
  wakes : ℕ → ℕ → Event
  says_ok : ℕ → Event
  says_retry : ℕ → Event
  resumes : ℕ → Event
  lets_go : ℕ → ℕ → Event
  revokes : ℕ → ℕ → Event
  retries : ℕ → Event
  turns : Event

abbrev pub with_call : ℕ → ℕ → Acquire → Map ℕ ℕ → Map ℕ ℕ
with_call t lid (calls n) m = insert lid t m
with_call t lid granted m = m
with_call t lid waits m = m

abbrev pub called : ℕ → ℕ → Acquire × LockClientCache → Client → Client
called t lid out w = record {
  cache = out.1;
  calling = with_call t lid out.0 w.calling;
  sleeping = w.sleeping;
}

-- An answer comes only to a call that is on its way.
unfoldable pub step : Event → Client → Client
step (acquires t lid) w = called t lid (acquire t lid w.cache) w
step (wakes t lid) w = called t lid (woken t lid w.cache) w
step (says_ok lid) w = elim (lookup lid w.calling) [
  | none ↦ w
  | some t ↦ record w { cache = reply_ok t lid w.cache; calling = erase lid w.calling }
]
step (says_retry lid) w = elim (lookup lid w.calling) [
  | none ↦ w
  | some t ↦
      if at lid false w.cache.m_lock_retry
      then record w { cache = (reply_retry t lid w.cache).1 }
      else record w {
        cache = (reply_retry t lid w.cache).1;
        calling = erase lid w.calling;
        sleeping = insert lid t w.sleeping;
      }
]
step (resumes lid) w = elim (lookup lid w.sleeping) [
  | none ↦ w
  | some t ↦ record w {
    cache = (resume lid w.cache).1;
    calling = insert lid t w.calling;
    sleeping = erase lid w.sleeping;
  }
]
step (lets_go t lid) w = record w { cache = release t lid w.cache }
step (revokes lid n) w = record w { cache = (revoke lid n w.cache).1 }
step (retries lid) w = elim (retry lid w.cache) [ none ↦ w | some (c, s) ↦ record w { cache = s } ]
step turns w = record w { cache = (releaser w.cache).1 }

-- How often a lock is in the list.
abbrev pub times : ℕ → List ℕ → ℕ
times lid [] = 0
times lid (x ∷ xs) = let n = times lid xs in if x == lid then n + 1 else n

abbrev pub status : ℕ → Client → ℕ
status lid w = at lid absent w.cache.m_lock_status

abbrev pub holder : ℕ → Client → ℕ
holder lid w = at lid 0 w.cache.m_lock_thread

-- A lock is handed to the releaser once, and is then RELEASING; it is ACQUIRING while a call for
-- it is on its way, and RETRYING while a thread waits to try again; only a lock that is LOCKED
-- has a thread.
pub record Sound (lid : ℕ) (w : Client) : Type 0 where
  pub once : times lid w.cache.l_released ≤ 1
  pub released : (times lid w.cache.l_released ≡ 0) ⊎ (status lid w ≡ releasing)
  pub called_for : (lookup lid w.calling ≡ none) ⊎ (status lid w ≡ acquiring)
  pub waited_for : (lookup lid w.sleeping ≡ none) ⊎ (status lid w ≡ retrying)
  pub held : (status lid w ≡ locked) ⊎ (holder lid w ≡ 0) ⊎ (holder lid w ≡ no_thread)

-- The threads of the event are threads.
abbrev pub IsThread : Event → Type 0
IsThread (acquires t lid) = (t ≢ 0) × (t ≢ no_thread)
IsThread (lets_go t lid) = (t ≢ 0) × (t ≢ no_thread)
IsThread (wakes t lid) = (t ≢ 0) × (t ≢ no_thread)
IsThread e = Unit
