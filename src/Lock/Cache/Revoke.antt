-- ===== src/Lock/Cache/Revoke.antt =====
-- What the revoker sends, and what it drops.
use lab.Base.{ℕ, ◌≡◌, ◌≢◌, refl, Bool, true, none, some, List, ◌∷◌, arith, nat_key}
use lab.Base.Map.{lookup, at, touch}
use lab.Lock.Cache.{
  LockServerCache, RevokeInfo, free, revoking, request_revoke, revoke_one, revoker,
}

-- The lock of the request is held by the client of the request, in the tenure that it names.
abbrev pub IsCurrent : RevokeInfo → LockServerCache → Type 0
IsCurrent i s = (at i.lid 0 s.m_lock_clid ≡ i.clid) × (at i.lid 0 s.m_lock_seqid ≡ i.seqid)

revoke_one-IsCurrent :
    (i j : RevokeInfo) (s : LockServerCache)
    → (revoke_one i s).0 ≡ some j
    → (j ≡ i) × IsCurrent i s × (i.clid ≢ free)
unfolding revoke_one
revoke_one-IsCurrent i j s e = (ground arith, (ground arith, ground arith), ground arith)

revoke_one_sent :
    (i : RevokeInfo) (s : LockServerCache)
    → IsCurrent i s
    → i.clid ≢ free
    → (revoke_one i s).0 ≡ some i
unfolding revoke_one
revoke_one_sent i s c n = ground (arith, c.0, c.1)

l_revoke-revoke_one :
    (i : RevokeInfo) (s : LockServerCache) → (revoke_one i s).1.l_revoke ≡ s.l_revoke
unfolding revoke_one
l_revoke-revoke_one i s = ground arith

revoke_one_zero :
    (i : RevokeInfo) (s : LockServerCache)
    → lookup i.lid s.m_lock_clid ≡ some 0
    → revoke_one i s ≡ (none, s)
unfolding revoke_one touch
revoke_one_zero i s h = ground arith

request_revoke_marked :
    (l : ℕ) (s : LockServerCache)
    → lookup l s.m_lock_status ≡ some revoking
    → request_revoke l s ≡ s
unfolding request_revoke
request_revoke_marked l s m = ground arith

-- The primary's revoker sends the oldest revoke request exactly if its client still holds the
-- lock in the same tenure and does not bear the number 0; the request leaves the list either
-- way.
pub revoker_sends :
    (i : RevokeInfo) (rest : List RevokeInfo) (s : LockServerCache)
    → s.l_revoke ≡ i ∷ rest
    → ((revoker true s).1.l_revoke ≡ rest)
      × (IsCurrent i s → i.clid ≢ free → (revoker true s).0 ≡ some i)
      × ((j : RevokeInfo) → (revoker true s).0 ≡ some j → (j ≡ i) × IsCurrent i s × (i.clid ≢ free))
unfolding revoker
revoker_sends i rest s due =
    let s' = record s { l_revoke = rest } in
    (
      rw (due, revoker) (l_revoke-revoke_one i s'),
      (λ c n. rw (due, revoker) (revoke_one_sent i s' c n)),
      (λ j e. revoke_one-IsCurrent i j s' (rw (due, revoker) at e)),
    )

-- Where the oldest revoke request names a lock that client 0 holds and that is marked as being
-- revoked, a round of the revoker drops it: it makes no call, client 0 keeps the lock, and a
-- later request for the same lock notes nothing.
pub revoke_lost :
    (i : RevokeInfo) (rest : List RevokeInfo) (p : Bool) (s : LockServerCache)
    → s.l_revoke ≡ i ∷ rest
    → lookup i.lid s.m_lock_clid ≡ some 0
    → lookup i.lid s.m_lock_status ≡ some revoking
    → let s' = (revoker p s).1 in
      ((revoker p s).0 ≡ none)
      × (s'.l_revoke ≡ rest)
      × (lookup i.lid s'.m_lock_clid ≡ some 0)
      × (request_revoke i.lid s' ≡ s')
unfolding revoker
revoke_lost i rest p s due h m =
    let s' = record s { l_revoke = rest } in
    let same : revoker p s ≡ (none, s') =
      rw (due, revoker, revoke_one_zero i s' h) (ground arith) in
    rw same (refl, refl, h, request_revoke_marked i.lid s' m)
