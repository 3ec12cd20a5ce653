-- ===== src/Lock/Server/Exclusion.antt =====
-- Who holds a lock, along any interleaving of calls.
use lab.Base.{ℕ, ◌≡◌, false, ◌&&◌, none, some, List, [], ◌∷◌, All, arith, ◌==◌, nat_key}
use lab.Base.Map.{lookup, lookup-insert, lookup-erase}
use lab.Lock.Server.{LockServer, ok, returned, waiting, wake, acquire, release}

-- The calls of clients and threads, each up to its return or its wait.
pub data Event : Type 0 where
  acquires : ℕ → ℕ → ℕ → Event
  wakes : ℕ → ℕ → ℕ → Event
  releases : ℕ → ℕ → ℕ → Event

unfoldable pub step : Event → LockServer → LockServer
step (acquires c t l) s = (acquire c t l s).1
step (wakes c t l) s = (wake c t l s).1
step (releases c t l) s = (release c t l s).1

unfoldable pub run : List Event → LockServer → LockServer
run [] s = s
run (e ∷ es) s = run es (step e s)

-- Lock `l` is registered for client `c` and thread `t`.
abbrev pub Held : ℕ → ℕ → ℕ → LockServer → Type 0
Held c t l s = (lookup l s.lock_client ≡ some c) × (lookup l s.lock_thread ≡ some t)

-- The event is no release of `l` by `c` and `t`.
abbrev pub KeepsHold : ℕ → ℕ → ℕ → Event → Type 0
KeepsHold c t l (releases d u k) = ((d == c && u == t) && k == l) ≡ false
KeepsHold c t l e = Unit {0}

step-Held :
    (c t l : ℕ) (e : Event) (s : LockServer)
    → KeepsHold c t l e
    → Held c t l s
    → Held c t l (step e s)
unfolding step acquire wake release
step-Held c t l (acquires d u k) s h p =
    ground (arith, lookup-insert k l d s.lock_client, lookup-insert k l u s.lock_thread)
step-Held c t l (wakes d u k) s h p =
    ground (arith, lookup-insert k l d s.lock_client, lookup-insert k l u s.lock_thread)
step-Held c t l (releases d u k) s h p =
    ground (arith, lookup-erase k l s.lock_client, lookup-erase k l s.lock_thread)

-- Only its own release takes a lock from its holder.
pub run-Held :
    (c t l : ℕ) (es : List Event) (s : LockServer)
    → All (KeepsHold c t l) es
    → Held c t l s
    → Held c t l (run es s)
unfolding run
run-Held c t l [] s h p = p
run-Held c t l (e ∷ es) s h p = run-Held c t l es (step e s) h.1 (step-Held c t l e s h.0 p)

-- While client `c` and thread `t` hold a lock and do not release it, nobody else gets it:
-- `acquire` by another pair and every turn of its loop wait, and change nothing.
pub holder_excludes :
    (c t d u l : ℕ) (es : List Event) (s : LockServer)
    → All (KeepsHold c t l) es
    → Held c t l s
    → (d == c && u == t) ≡ false
    → (acquire d u l (run es s) ≡ (waiting, run es s))
      × (wake d u l (run es s) ≡ (waiting, run es s))
unfolding acquire wake
holder_excludes c t d u l es s h p n =
    let q = run-Held c t l es s h p in (ground (arith, q.0, q.1), ground (arith, q.0))

wake_free :
    (d u l : ℕ) (s : LockServer)
    → lookup l s.lock_client ≡ none
    → ((wake d u l s).0 ≡ returned ok) × Held d u l (wake d u l s).1
unfolding wake
wake_free d u l s e = (
  ground arith,
  (
    ground (arith, lookup-insert l l d s.lock_client),
    ground (arith, lookup-insert l l u s.lock_thread),
  ),
)

release_frees :
    (c t l : ℕ) (s : LockServer) → Held c t l s → lookup l (release c t l s).1.lock_client ≡ none
unfolding release
release_frees c t l s p = ground (arith, p.0, p.1, lookup-erase l l s.lock_client)

-- The release by its holder makes a lock free: the next turn of any waiting caller is granted
-- it.
pub release_grants :
    (c t d u l : ℕ) (s : LockServer)
    → Held c t l s
    → let s' = (release c t l s).1 in
      ((wake d u l s').0 ≡ returned ok) × Held d u l (wake d u l s').1
release_grants c t d u l s p = wake_free d u l (release c t l s).1 (release_frees c t l s p)
