-- ===== src/Lock/Server/Tests.antt =====
-- Runs of the blocking server, and the theorems at concrete inputs.
use lab.Base.{◌≡◌, refl, List, [], ◌∷◌, nat_key}
use lab.Base.Map.{insert, lookup}
use lab.Lock.Server.{LockServer, init, waiting, stat, count_up, wake, acquire}
use lab.Lock.Server.Exclusion.{Event, acquires, wakes, releases, step, run, holder_excludes}

-- Client 4, thread 1 holds lock 7.
abbrev held : LockServer
held = record { lock_client = (7, 4) ∷ []; lock_thread = (7, 1) ∷ []; clt_lock_count = [] }

abbrev traffic : List Event
traffic = acquires 5 2 7 ∷ releases 5 2 7 ∷ acquires 4 1 8 ∷ releases 4 1 8 ∷ wakes 5 2 7 ∷ []

holder_excludes_example :
    (acquire 5 2 7 (run traffic held) ≡ (waiting, run traffic held))
    × (wake 5 2 7 (run traffic held) ≡ (waiting, run traffic held))
unfolding lookup
holder_excludes_example =
    holder_excludes 4 1 5 2 7 traffic held (tt, (refl, (tt, (refl, (tt, tt))))) (refl, refl) refl

-- Two acquisitions by client 5 of lock 7, of which the second finds the lock its own.
stat-run : stat 5 7 (run (acquires 5 2 7 ∷ acquires 5 2 7 ∷ []) init) ≡ 1
unfolding run step acquire wake stat count_up insert lookup
stat-run = refl
