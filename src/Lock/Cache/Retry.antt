-- ===== src/Lock/Cache/Retry.antt =====
-- Which waiting clients a round of the retryer calls.
use lab.Base.{
  ℕ, ◌≡◌, refl, subst, ◌∙◌, inl, inr, Bool, true, false, ◌||◌, ◌&&◌, Option, none, some, List, [],
  ◌∷◌, arith, ◌==◌, if◌then◌else◌, nat_key, Bool-cases, List-cases,
}
use lab.Base.Map.{Map, lookup, insert, at, touch, has, lookup-insert, lookup-touch, IsSorted, Above}
use lab.Lock.Cache.{LockServerCache, free, find_free_locks, take_waiters, retryer}

abbrev pub member : ℕ → List ℕ → Bool
member l [] = false
member l (k ∷ ks) = k == l || member l ks

abbrev Distinct : List ℕ → Type 0
Distinct [] = Unit {0}
Distinct (k ∷ ks) = (member k ks ≡ false) × Distinct ks

member-Above : (l : ℕ) (m : Map ℕ ℕ) → Above l m → member l (find_free_locks m) ≡ false
unfolding find_free_locks
member-Above l [] a = refl
member-Above l ((k, v) ∷ m) a = ground (arith, member-Above l m a.1)

find_free_locks-Distinct : (m : Map ℕ ℕ) → IsSorted m → Distinct (find_free_locks m)
unfolding find_free_locks
find_free_locks-Distinct [] s = tt
find_free_locks-Distinct ((k, v) ∷ m) s = elim (Bool-cases (v == free)) [
  | inl open_lock ↦ rw open_lock (member-Above k m s.0, find_free_locks-Distinct m s.1)
  | inr taken ↦ rw taken (find_free_locks-Distinct m s.1)
]

lookup-Above : (l : ℕ) (m : Map ℕ ℕ) → Above l m → lookup l m ≡ none
unfolding lookup
lookup-Above l [] a = refl
lookup-Above l ((k, v) ∷ m) a = ground (arith, lookup-Above l m a.1)

member-find_free_locks :
    (l : ℕ) (m : Map ℕ ℕ)
    → IsSorted m
    → member l (find_free_locks m) ≡ (has l m && at l 1 m == free)
unfolding find_free_locks lookup
member-find_free_locks l [] s = refl
member-find_free_locks l ((k, v) ∷ m) s =
    ground (arith, member-find_free_locks l m s.1, member-Above k m s.0, lookup-Above k m s.0)

take_waiters_out :
    (l : ℕ) (ks : List ℕ) (calls : Map ℕ ℕ) (lists : Map ℕ (List ℕ))
    → member l ks ≡ false
    → (lookup l (take_waiters ks calls lists).0 ≡ lookup l calls)
      × (at l [] (take_waiters ks calls lists).1 ≡ at l [] lists)
unfolding take_waiters
take_waiters_out l [] calls lists n = (refl, refl)
take_waiters_out l (k ∷ ks) calls lists n = elim (List-cases (at k [] lists)) [
  | inl nobody ↦
      rw (nobody, take_waiters)
        (ground (arith, take_waiters_out l ks calls (touch k [] lists), lookup-touch k l [] lists))
  | inr (c, rest, e) ↦
      rw (e, take_waiters)
        (ground (
          arith,
          take_waiters_out l ks (insert k c calls) (insert k rest lists),
          lookup-insert k l c calls,
          lookup-insert k l rest lists,
        ))
]

abbrev pub first : List ℕ → Option ℕ
first [] = none
first (c ∷ cs) = some c

abbrev pub others : List ℕ → List ℕ
others [] = []
others (c ∷ cs) = cs

take_waiters_in :
    (l : ℕ) (ks : List ℕ) (calls : Map ℕ ℕ) (lists : Map ℕ (List ℕ))
    → member l ks ≡ true
    → Distinct ks
    → lookup l calls ≡ none
    → (lookup l (take_waiters ks calls lists).0 ≡ first (at l [] lists))
      × (at l [] (take_waiters ks calls lists).1 ≡ others (at l [] lists))
unfolding take_waiters
take_waiters_in l [] calls lists n d e = cc
take_waiters_in l (k ∷ ks) calls lists n d e = elim (Bool-cases (k == l)) [
  | inl here ↦
      let s : k ≡ l = ground arith in
      let out : member l ks ≡ false = subst (λ i. member i ks ≡ false) s d.0 in
      elim (List-cases (at k [] lists)) [
        | inl nobody ↦
            let nobody' : at l [] lists ≡ [] = subst (λ i. at i [] lists ≡ []) s nobody in
            rw (nobody, take_waiters)
              (ground (
                arith,
                nobody',
                take_waiters_out l ks calls (touch k [] lists),
                lookup-touch k l [] lists,
              ))
        | inr (c, rest, f) ↦
            let f' : at l [] lists ≡ c ∷ rest = subst (λ i. at i [] lists ≡ c ∷ rest) s f in
            rw (f, take_waiters)
              (ground (
                arith,
                f',
                take_waiters_out l ks (insert k c calls) (insert k rest lists),
                lookup-insert k l c calls,
                lookup-insert k l rest lists,
              ))
      ]
  | inr there ↦ elim (List-cases (at k [] lists)) [
    | inl nobody ↦
        rw (nobody, take_waiters)
          (ground (arith, take_waiters_in l ks calls (touch k [] lists), lookup-touch k l [] lists))
    | inr (c, rest, f) ↦
        rw (f, take_waiters)
          (ground (
            arith,
            take_waiters_in l ks (insert k c calls) (insert k rest lists),
            lookup-insert k l c calls,
            lookup-insert k l rest lists,
          ))
  ]
]

lookup_nil : (l : ℕ) → lookup {V = ℕ} l [] ≡ none
unfolding lookup
lookup_nil l = refl

-- The lock has an entry and is free.
abbrev pub is_free : ℕ → LockServerCache → Bool
is_free l s = has l s.m_lock_status && at l 1 s.m_lock_status == free

-- A round of the primary's retryer over locks in key order calls, for each free lock, the client
-- that has waited longest, and takes that client alone from the lock's list; it makes no call
-- for a lock that is not free, and leaves its list alone.
pub retryer_serves :
    (l : ℕ) (s : LockServerCache)
    → IsSorted s.m_lock_status
    → let (calls, s') = retryer true s in
      let list = at l [] s.m_lock_retrylist in
      (lookup l calls ≡ (if is_free l s then first list else none))
      × (at l [] s'.m_lock_retrylist ≡ (if is_free l s then others list else list))
unfolding retryer
retryer_serves l s o =
    let lids = find_free_locks s.m_lock_status in
    let known = member-find_free_locks l s.m_lock_status o in
    elim (Bool-cases (is_free l s)) [
      | inl open_lock ↦ rw open_lock (
          take_waiters_in l lids [] s.m_lock_retrylist (known ∙ open_lock)
            (find_free_locks-Distinct s.m_lock_status o) (lookup_nil l))
      | inr taken ↦
          let (c, f) = take_waiters_out l lids [] s.m_lock_retrylist (known ∙ taken) in
          rw taken (c ∙ lookup_nil l, f)
    ]
