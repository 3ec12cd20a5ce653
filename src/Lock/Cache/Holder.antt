-- ===== src/Lock/Cache/Holder.antt =====
-- Who holds a lock, along any sequence of calls and rounds of the server's threads.
use lab.Base.{
  ℕ, ◌≡◌, ◌≢◌, ap, subst, ◌∙◌, inl, inr, Bool, true, false, ◌&&◌, Option, none, some, List, [], ◌∷◌,
  ◌++◌, All, arith, ◌==◌, nat_key, Bool-cases, Option-cases, nat_beq_iff, some_inj, List-cases,
}
use lab.Base.Bytes.{Bytes}
use lab.Base.Map.{lookup, has, at, lookup-insert, lookup-touch}
use lab.Lock.Cache.{
  LockServerCache, RevokeInfo, retry, free, locked, revoking, no_clid, subscribe, create_lock,
  request_revoke, grant, push_retry, acquire_locked, acquire, give_back, release_locked, release,
  stat, revoke_one, revoker, retryer, is_empty,
}

pub data Event : Type 0 where
  subscribes : ℕ → Bytes → Event
  acquires : ℕ → ℕ → ℕ → Event
  releases : ℕ → ℕ → ℕ → Event
  stats : ℕ → ℕ → Event
  revokes : Bool → Event
  retries : Bool → Event

abbrev pub state_of {ℓ κ} : {A : Type ℓ} {S : Type κ} → Option (A × S) → Option S
state_of none = none
state_of (some (a, s)) = some s

-- `none` where the server has ended on an assertion.
unfoldable pub step : Event → LockServerCache → Option LockServerCache
step (subscribes c h) s = some (subscribe c h s)
step (acquires c l q) s = state_of (acquire c l q s)
step (releases c l again) s = state_of (release c l again s)
step (stats c l) s = state_of (stat c l s)
step (revokes p) s = some (revoker p s).1
step (retries p) s = some (retryer p s).1

unfoldable pub run : List Event → LockServerCache → Option LockServerCache
run [] s = some s
run (e ∷ es) s = elim (step e s) [ none ↦ none | some s' ↦ run es s' ]

-- Client `c` holds lock `l`.
abbrev pub Held : ℕ → ℕ → LockServerCache → Type 0
Held c l s = (at l free s.m_lock_status ≢ free) × (lookup l s.m_lock_clid ≡ some c)

-- The event is no release of `l` by `c`.
abbrev pub KeepsHold : ℕ → ℕ → Event → Type 0
KeepsHold c l (releases d k again) = (d == c && k == l) ≡ false
KeepsHold c l e = Unit {0}

pub create_lock-Held : (c l k : ℕ) (s : LockServerCache) → Held c l s → Held c l (create_lock k s)
unfolding create_lock
create_lock-Held c l k s h =
    ground (arith, lookup-insert k l free s.m_lock_status, lookup-insert k l no_clid s.m_lock_clid)

pub request_revoke-Held :
    (c l k : ℕ) (s : LockServerCache) → Held c l s → Held c l (request_revoke k s)
unfolding request_revoke
request_revoke-Held c l k s h =
    ground (arith, lookup-insert k l revoking s.m_lock_status, lookup-touch k l 0 s.m_lock_clid)

-- While `c` holds `l`, any other lock may be granted.
grant-Held : (c l d k q : ℕ) (s : LockServerCache) → k ≢ l → Held c l s → Held c l (grant d k q s)
unfolding grant
grant-Held c l d k q s n h =
    ground (arith, lookup-insert k l locked s.m_lock_status, lookup-insert k l d s.m_lock_clid)

acquire_locked-Held :
    (c l d k q : ℕ) (s : LockServerCache) → Held c l s → Held c l (acquire_locked d k q s).1
unfolding acquire_locked push_retry
acquire_locked-Held c l d k q s h = elim (Bool-cases (has d s.m_clid_rpcc)) [
  | inr unknown ↦ rw unknown h
  | inl known ↦ elim (Bool-cases (at k free s.m_lock_status == free)) [
    | inr taken ↦ rw (known, taken) (request_revoke-Held c l k s h)
    | inl open_lock ↦
        let n : k ≢ l = λ e.
          h.0 (subst (λ j. at j free s.m_lock_status ≡ free) e ((nat_beq_iff _ _).0 open_lock)) in
        let g = grant-Held c l d k q s n h in
        elim (Bool-cases (is_empty (at k [] s.m_lock_retrylist))) [
          | inl alone ↦ rw (known, open_lock, alone) g
          | inr waited ↦ rw (known, open_lock, waited) (request_revoke-Held c l k _ g)
        ]
  ]
]

give_back-Held : (c l k : ℕ) (s : LockServerCache) → k ≢ l → Held c l s → Held c l (give_back k s)
unfolding give_back
give_back-Held c l k s n h =
    ground (arith, lookup-insert k l free s.m_lock_status, lookup-insert k l no_clid s.m_lock_clid)

release_locked-Held :
    (c l d k again : ℕ) (s : LockServerCache)
    → (d == c && k == l) ≡ false
    → Held c l s
    → Held c l (release_locked d k again s).1
unfolding release_locked push_retry
release_locked-Held c l d k again s n h = elim (Bool-cases (k == l)) [
  | inl same ↦ ground (
    arith,
    lookup-touch k l 0 s.m_lock_clid,
    ap (λ j. lookup j s.m_lock_clid) (let e : k ≡ l = ground arith in e),
  )
  | inr other ↦ ground (arith, give_back-Held c l k s, lookup-touch k l 0 s.m_lock_clid)
]

revoke_one-Held :
    (c l : ℕ) (i : RevokeInfo) (s : LockServerCache) → Held c l s → Held c l (revoke_one i s).1
unfolding revoke_one
revoke_one-Held c l i s h = ground (arith, lookup-touch i.lid l 0 s.m_lock_clid)

revoker-Held : (c l : ℕ) (p : Bool) (s : LockServerCache) → Held c l s → Held c l (revoker p s).1
unfolding revoker
revoker-Held c l p s h = elim (List-cases s.l_revoke) [
  | inl none_due ↦ rw (none_due, revoker) h
  | inr (i, rest, due) ↦ rw (due, revoker) (revoke_one-Held c l i (record s { l_revoke = rest }) h)
]

step-Held :
    (c l : ℕ) (e : Event) (s s' : LockServerCache)
    → KeepsHold c l e
    → Held c l s
    → step e s ≡ some s'
    → Held c l s'
unfolding step subscribe acquire release stat revoker retryer
step-Held c l (subscribes d host) s s' k h e = subst (Held c l) (some_inj e) h
step-Held c l (acquires d j q) s s' k h e =
    elim (Bool-cases (has d (create_lock j s).m_clid_rpcc)) [
      | inl known ↦
          let e' : some (acquire_locked d j q (create_lock j s)).1 ≡ some s' = rw known at e in
          subst (Held c l) (some_inj e')
            (acquire_locked-Held c l d j q (create_lock j s) (create_lock-Held c l j s h))
      | inr gone ↦ absurd (cc (rw gone at e))
    ]
step-Held c l (releases d j again) s s' k h e = elim (Bool-cases (has d s.m_clid_rpcc)) [
  | inl known ↦
      let e' : some (release_locked d j again s).1 ≡ some s' = rw known at e in
      subst (Held c l) (some_inj e') (release_locked-Held c l d j again s k h)
  | inr gone ↦ absurd (cc (rw gone at e))
]
step-Held c l (stats d j) s s' k h e = elim (Bool-cases (has d s.m_clid_rpcc)) [
  | inl known ↦ subst (Held c l) (some_inj (rw known at e)) h
  | inr gone ↦ absurd (cc (rw gone at e))
]
step-Held c l (revokes p) s s' k h e = subst (Held c l) (some_inj e) (revoker-Held c l p s h)
step-Held c l (retries p) s s' k h e = subst (Held c l) (some_inj e) h

-- Only its own release takes a lock from its holder.
pub run-Held :
    (c l : ℕ) (es : List Event) (s s' : LockServerCache)
    → All (KeepsHold c l) es
    → Held c l s
    → run es s ≡ some s'
    → Held c l s'
unfolding run
run-Held c l [] s s' k h e = subst (Held c l) (some_inj e) h
run-Held c l (e ∷ es) s s' k h q = elim (Option-cases (step e s)) [
  | inl gone ↦ absurd (cc (rw (gone, run) at q))
  | inr (t, go) ↦ run-Held c l es t s' k.1 (step-Held c l e s t k.0 h go) (rw (go, run) at q)
]

create_lock_known :
    (l : ℕ) (s : LockServerCache) → at l free s.m_lock_status ≢ free → create_lock l s ≡ s
unfolding create_lock
create_lock_known l s h = elim (Option-cases (lookup l s.m_lock_status)) [
  | inl unseen ↦ absurd (h (ground arith))
  | inr (v, seen) ↦ ground arith
]

acquire_locked_busy :
    (c d l q : ℕ) (s : LockServerCache)
    → Held c l s
    → has d s.m_clid_rpcc ≡ true
    → acquire_locked d l q s ≡ (retry, push_retry d l (request_revoke l s))
unfolding acquire_locked
acquire_locked_busy c d l q s h known =
    let busy : (at l free s.m_lock_status == free) ≡ false = ground (arith, h.0) in rw (known, busy)

acquire_busy :
    (c d l q : ℕ) (s : LockServerCache)
    → Held c l s
    → has d s.m_clid_rpcc ≡ true
    → acquire d l q s ≡ some (retry, push_retry d l (request_revoke l s))
unfolding acquire
acquire_busy c d l q s h known =
    rw (create_lock_known l s h.0, known) (ap some (acquire_locked_busy c d l q s h known))

revoke_marks :
    (l : ℕ) (s : LockServerCache)
    → at l free s.m_lock_status ≢ free
    → lookup l (request_revoke l s).m_lock_status ≡ some revoking
unfolding request_revoke
revoke_marks l s h = ground (arith, lookup-insert l l revoking s.m_lock_status)

retrylist-request_revoke :
    (l : ℕ) (s : LockServerCache) → (request_revoke l s).m_lock_retrylist ≡ s.m_lock_retrylist
unfolding request_revoke
retrylist-request_revoke l s = ground arith

push_retry-last :
    (d l : ℕ) (s : LockServerCache)
    → lookup l (push_retry d l s).m_lock_retrylist ≡ some (at l [] s.m_lock_retrylist ++ d ∷ [])
unfolding push_retry
push_retry-last d l s =
    ground (arith, lookup-insert l l (at l [] s.m_lock_retrylist ++ d ∷ []) s.m_lock_retrylist)

-- While client `c` holds a lock and has not released it, every `acquire` of the lock by a client
-- that has subscribed is told to retry: it leaves the holder in place, marks the lock as being
-- revoked, and puts the caller at the end of the lock's waiting clients.
pub cached_holder_excludes :
    (c d l q : ℕ) (es : List Event) (s s' : LockServerCache)
    → All (KeepsHold c l) es
    → Held c l s
    → run es s ≡ some s'
    → has d s'.m_clid_rpcc ≡ true
    → (t : LockServerCache) × (acquire d l q s' ≡ some (retry, t))
      × Held c l t
      × (lookup l t.m_lock_status ≡ some revoking)
      × (lookup l t.m_lock_retrylist ≡ some (at l [] s'.m_lock_retrylist ++ d ∷ []))
unfolding push_retry
cached_holder_excludes c d l q es s s' k h r known =
    let h' = run-Held c l es s s' k h r in
    (
      push_retry d l (request_revoke l s'),
      acquire_busy c d l q s' h' known,
      request_revoke-Held c l l s' h',
      revoke_marks l s' h'.0,
      push_retry-last d l (request_revoke l s')
          ∙ ap (λ m. some (at l [] m ++ d ∷ [])) (retrylist-request_revoke l s'),
    )
