-- ===== src/Lock/Cache/Counts.antt =====
-- What `stat` reports, along any sequence of calls and rounds of the server's threads.
use lab.Base.{
  ℕ, ◌+◌, ◌%◌, ◌^◌, ◌<◌, ◌≡◌, refl, ap, subst, ◌∙◌, Bool, true, false, ◌&&◌, inl, inr, none, some,
  List, [], ◌∷◌, arith, ◌==◌, if◌then◌else◌, nat_key, Bool-cases, Option-cases, List-cases,
  some_inj,
}
use lab.Base.Map.{Map, lookup, insert, has, at, touch, lookup-insert, lookup-touch}
use lab.Lock.Cache.{
  LockServerCache, RevokeInfo, init, Status, ok, count_up, subscribe, create_lock, request_revoke,
  grant, push_retry, acquire_locked, acquire, give_back, release_locked, release, stat, revoke_one,
  revoker, retryer,
}
use lab.Lock.Cache.Holder.{
  Event, subscribes, acquires, releases, stats, revokes, retries, step, run,
}

abbrev pub is_ok : Status → Bool
is_ok ok = true
is_ok st = false

-- 1 where the call is an `acquire` of lock `l` by client `c` that returns OK.
pub granted : ℕ → ℕ → Event → LockServerCache → ℕ
granted c l (acquires d k q) s = elim (acquire d k q s) [
  | none ↦ 0
  | some (st, t) ↦ if is_ok st && (d == c && k == l) then 1 else 0
]
granted c l e s = 0

pub grants : ℕ → ℕ → List Event → LockServerCache → ℕ
grants c l [] s = 0
grants c l (e ∷ es) s = granted c l e s + elim (step e s) [ none ↦ 0 | some s' ↦ grants c l es s' ]

count_of : ℕ → ℕ → Map ℕ (Map ℕ ℕ) → ℕ
count_of c l m = at c 0 (at l [] m)

count_up_lem :
    (d k c l : ℕ) (m : Map ℕ (Map ℕ ℕ))
    → count_of c l (count_up d k m)
      ≡ (if d == c && k == l then (count_of c l m + 1) % 2 ^ 32 else count_of c l m)
unfolding count_up count_of
count_up_lem d k c l m =
    let own = at k [] m in
    ground (
      arith,
      lookup-insert k l (insert d ((at d 0 own + 1) % 2 ^ 32) own) m,
      lookup-insert k l (insert d 1 own) m,
      lookup-insert d c ((at d 0 own + 1) % 2 ^ 32) own,
      lookup-insert {V = ℕ} d c 1 own,
    )

abbrev counts : LockServerCache → Map ℕ (Map ℕ ℕ)
counts s = s.m_lock_clid_count

counts-create_lock : (k : ℕ) (s : LockServerCache) → counts (create_lock k s) ≡ counts s
unfolding create_lock
counts-create_lock k s = ground arith

counts-request_revoke : (k : ℕ) (s : LockServerCache) → counts (request_revoke k s) ≡ counts s
unfolding request_revoke
counts-request_revoke k s = ground arith

counts-acquire_locked :
    (d k q : ℕ) (s : LockServerCache)
    → counts (acquire_locked d k q s).1
      ≡ (if is_ok (acquire_locked d k q s).0 then count_up d k (counts s) else counts s)
unfolding acquire_locked push_retry grant
counts-acquire_locked d k q s =
    ground (arith, counts-request_revoke k s, counts-request_revoke k (grant d k q s))

counts-release_locked :
    (d k again : ℕ) (s : LockServerCache) → counts (release_locked d k again s).1 ≡ counts s
unfolding release_locked push_retry give_back
counts-release_locked d k again s = ground arith

counts-revoke_one : (i : RevokeInfo) (s : LockServerCache) → counts (revoke_one i s).1 ≡ counts s
unfolding revoke_one
counts-revoke_one i s = ground arith

counts-revoker : (p : Bool) (s : LockServerCache) → counts (revoker p s).1 ≡ counts s
unfolding revoker
counts-revoker p s = elim (List-cases s.l_revoke) [
  | inl idle ↦ rw (idle, revoker) refl
  | inr (i, rest, due) ↦ rw (due, revoker) (counts-revoke_one i (record s { l_revoke = rest }))
]

counts-retryer : (p : Bool) (s : LockServerCache) → counts (retryer p s).1 ≡ counts s
unfolding retryer
counts-retryer p s = refl

count_of-touch : (c l k : ℕ) (m : Map ℕ (Map ℕ ℕ)) → count_of c l (touch k [] m) ≡ count_of c l m
unfolding count_of
count_of-touch c l k m = ground (arith, lookup-touch k l [] m, ap (λ j. lookup j m))

-- What an `acquire` that ends adds to the count.
acquire-count :
    (c l d k q : ℕ) (s : LockServerCache)
    → count_of c l (counts (acquire_locked d k q (create_lock k s)).1) ≡ (
        if is_ok (acquire_locked d k q (create_lock k s)).0 && (d == c && k == l)
        then (count_of c l (counts s) + 1) % 2 ^ 32
        else count_of c l (counts s))
acquire-count c l d k q s =
    let s' = create_lock k s in
    elim (Bool-cases (is_ok (acquire_locked d k q s').0)) [
      | inl yea ↦ rw yea (
          ap (count_of c l) (rw yea at (counts-acquire_locked d k q s'))
          ∙ count_up_lem d k c l (counts s')
          ∙ ap (λ m. if d == c && k == l then (count_of c l m + 1) % 2 ^ 32 else count_of c l m)
              (counts-create_lock k s))
      | inr nay ↦ rw nay (
          ap (count_of c l) (rw nay at (counts-acquire_locked d k q s'))
          ∙ ap (count_of c l) (counts-create_lock k s))
    ]

granted_acquire :
    (c l d k q : ℕ) (s : LockServerCache)
    → has d (create_lock k s).m_clid_rpcc ≡ true
    → granted c l (acquires d k q) s
      ≡ (if is_ok (acquire_locked d k q (create_lock k s)).0 && (d == c && k == l) then 1 else 0)
unfolding granted acquire
granted_acquire c l d k q s known = rw (known, granted)

-- The count after a step that ends, and the grant that it is.
Counted : ℕ → ℕ → LockServerCache → ℕ → LockServerCache → Type 0
Counted c l s g s' =
    (count_of c l (counts s') % 2 ^ 32 ≡ (count_of c l (counts s) + g) % 2 ^ 32)
    × (count_of c l (counts s) < 2 ^ 32 → count_of c l (counts s') < 2 ^ 32)

same_count :
    (c l : ℕ) (s s' : LockServerCache)
    → count_of c l (counts s') ≡ count_of c l (counts s)
    → Counted c l s 0 s'
unfolding Counted
same_count c l s s' e = (omega (arith, e), λ h. omega (arith, e))

if_count :
    (b : Bool) (n m : ℕ)
    → m ≡ (if b then (n + 1) % 2 ^ 32 else n)
    → (m % 2 ^ 32 ≡ (n + (if b then 1 else 0)) % 2 ^ 32) × (n < 2 ^ 32 → m < 2 ^ 32)
if_count true n m e = (omega (arith, e), λ h. omega (arith, e))
if_count false n m e = (omega (arith, e), λ h. omega (arith, e))

step-count :
    (c l : ℕ) (e : Event) (s s' : LockServerCache)
    → step e s ≡ some s'
    → Counted c l s (granted c l e s) s'
unfolding step subscribe acquire release stat granted Counted
step-count c l (subscribes d host) s s' e =
    subst (Counted c l s 0) (some_inj e) (same_count c l s (subscribe d host s) refl)
step-count c l (acquires d k q) s s' e = elim (Bool-cases (has d (create_lock k s).m_clid_rpcc)) [
  | inr gone ↦ absurd (cc (rw gone at e))
  | inl known ↦
      subst (Counted c l s (granted c l (acquires d k q) s)) (some_inj (rw known at e))
        (rw (granted_acquire c l d k q s known) (if_count _ _ _ (acquire-count c l d k q s)))
]
step-count c l (releases d k again) s s' e = elim (Bool-cases (has d s.m_clid_rpcc)) [
  | inr gone ↦ absurd (cc (rw gone at e))
  | inl known ↦ subst (Counted c l s 0) (some_inj (rw known at e)) (
      same_count c l s (release_locked d k again s).1
        (ap (count_of c l) (counts-release_locked d k again s)))
]
step-count c l (stats d k) s s' e = elim (Bool-cases (has d s.m_clid_rpcc)) [
  | inr gone ↦ absurd (cc (rw gone at e))
  | inl known ↦ subst (Counted c l s 0) (some_inj (rw known at e)) (
      same_count c l s (record s { m_lock_clid_count = touch k [] s.m_lock_clid_count })
        (count_of-touch c l k (counts s)))
]
step-count c l (revokes p) s s' e =
    subst (Counted c l s 0) (some_inj e)
      (same_count c l s (revoker p s).1 (ap (count_of c l) (counts-revoker p s)))
step-count c l (retries p) s s' e =
    subst (Counted c l s 0) (some_inj e)
      (same_count c l s (retryer p s).1 (ap (count_of c l) (counts-retryer p s)))

run-count :
    (c l : ℕ) (es : List Event) (s s' : LockServerCache)
    → run es s ≡ some s'
    → Counted c l s (grants c l es s) s'
unfolding run grants Counted
run-count c l [] s s' q = subst (Counted c l s 0) (some_inj q) (same_count c l s s refl)
run-count c l (e ∷ es) s s' q = elim (Option-cases (step e s)) [
  | inl gone ↦ absurd (cc (rw (gone, run) at q))
  | inr (t, go) ↦
      let now = step-count c l e s t go in
      let later = run-count c l es t s' (rw (go, run) at q) in
      rw (go, grants) (omega (arith, now.0, later.0), λ h. later.1 (now.1 h))
]

-- After any run from the start, `stat` reports to a client that has subscribed how many of its
-- `acquire` calls for the lock returned OK, modulo 2 ^ 32.
pub stat_counts_grants :
    (c l : ℕ) (es : List Event) (s : LockServerCache)
    → run es init ≡ some s
    → has c s.m_clid_rpcc ≡ true
    → (t : LockServerCache) × (stat c l s ≡ some (grants c l es init % 2 ^ 32, t))
unfolding stat count_of lookup Counted
stat_counts_grants c l es s q known =
    let n = run-count c l es init s q in
    let small = n.1 (omega arith) in
    let exact : count_of c l (counts s) ≡ grants c l es init % 2 ^ 32 = omega (arith, n.0, small) in
    (
      record s { m_lock_clid_count = touch l [] s.m_lock_clid_count },
      rw known (
          ap (λ r. some (r, record s { m_lock_clid_count = touch l [] s.m_lock_clid_count }))
            ((if_at c (at l [] s.m_lock_clid_count)) ∙ exact)),
    )
  where
    if_at : (c : ℕ) (own : Map ℕ ℕ) → (if has c own then at c 0 own else 0) ≡ at c 0 own
    if_at c own = ground arith
