-- ===== src/Lock/Cache/Tests.antt =====
-- The theorems on the caching server at concrete inputs.
use lab.Base.{List, ◌≡◌, refl, none, some, [], ◌∷◌, ◌++◌, true, arith, nat_key, if◌then◌else◌}
use lab.Base.Map.{lookup, at}
use lab.Lock.Cache.{
  LockServerCache, retry, free, locked, revoking, acquire, revoker, retryer, request_revoke, init,
  acquire_locked, create_lock, subscribe, find_free_locks, take_waiters,
}
use lab.Lock.Cache.Holder.{
  Event, subscribes, acquires, step, revokes, retries, run, Held, cached_holder_excludes,
}
use lab.Lock.Cache.Revoke.{revoke_lost}
use lab.Lock.Cache.Retry.{is_free, first, others, retryer_serves}

-- Client 3 holds lock 7, and client 4 is known.
abbrev held : LockServerCache
held = record {
  m_lock_status = (7, locked) ∷ [];
  m_clid_rpcc = (3, []) ∷ (4, []) ∷ [];
  m_clid_host = (3, []) ∷ (4, []) ∷ [];
  m_lock_clid = (7, 3) ∷ [];
  m_lock_retrylist = (7, []) ∷ [];
  l_revoke = [];
  m_lock_clid_count = [];
  m_lock_seqid = (7, 1) ∷ [];
}

cached_holder_excludes_example :
    (t : LockServerCache) × (acquire 4 7 9 held ≡ some (retry, t))
    × Held 3 7 t
    × (lookup 7 t.m_lock_status ≡ some revoking)
    × (lookup 7 t.m_lock_retrylist ≡ some (at 7 [] held.m_lock_retrylist ++ 4 ∷ []))
unfolding lookup run step revoker retryer find_free_locks take_waiters
cached_holder_excludes_example =
    cached_holder_excludes 3 4 7 9 (revokes true ∷ retries true ∷ []) held held (tt, (tt, tt))
      ((λ e. absurd (omega arith)), refl) refl refl

-- Lock 7 is asked back from client 3.
abbrev asked : LockServerCache
asked = record held {
  m_lock_status = (7, revoking) ∷ [];
  l_revoke = (record { lid = 7; clid = 3; seqid = 1 }) ∷ [];
}

-- Client 0 holds lock 7.
abbrev of_zero : LockServerCache
of_zero = record asked {
  m_lock_clid = (7, 0) ∷ [];
  l_revoke = (record { lid = 7; clid = 0; seqid = 1 }) ∷ [];
}

revoke_lost_example :
    ((revoker true of_zero).0 ≡ none)
    × ((revoker true of_zero).1.l_revoke ≡ [])
    × (lookup 7 (revoker true of_zero).1.m_lock_clid ≡ some 0)
    × (request_revoke 7 (revoker true of_zero).1 ≡ (revoker true of_zero).1)
unfolding lookup
revoke_lost_example =
    revoke_lost (record { lid = 7; clid = 0; seqid = 1 }) [] true of_zero refl refl refl

-- Lock 7 is free, and clients 4 and 5 wait for it.
abbrev waited : LockServerCache
waited = record held { m_lock_status = (7, free) ∷ []; m_lock_retrylist = (7, 4 ∷ 5 ∷ []) ∷ [] }

retryer_serves_example :
    (lookup 7 (retryer true waited).0 ≡ (if is_free 7 waited then first (4 ∷ 5 ∷ []) else none))
    × (at 7 [] (retryer true waited).1.m_lock_retrylist
        ≡ (if is_free 7 waited then others (4 ∷ 5 ∷ []) else (4 ∷ 5 ∷ [])))
unfolding lookup
retryer_serves_example = retryer_serves 7 waited (tt, tt)

-- Client 3 subscribes and acquires lock 7.
abbrev first_calls : List Event
first_calls = subscribes 3 [] ∷ acquires 3 7 1 ∷ []

abbrev acquired : LockServerCache
acquired = (acquire_locked 3 7 1 (create_lock 7 (subscribe 3 [] init))).1
