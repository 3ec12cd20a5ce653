-- ===== src/Rpc/Timespec/Tests.antt =====
-- Times at concrete inputs.
use lab.Base.{◌+◌, ◌*◌, ◌≤◌, ◌≡◌, refl, some}
use lab.Rpc.Timespec.{Timespec, add_timespec, diff_timespec, cmp_timespec, earlier, carry}
use lab.Rpc.Timespec.Sum.{nanoseconds, add_timespec_ends}

-- A sum that is a whole second is left as it is.
add_whole :
    add_timespec (record { tv_sec = 3; tv_nsec = 400000000 }) 600
    ≡ some (record { tv_sec = 3; tv_nsec = 1000000000 })
unfolding add_timespec carry
add_whole = refl

diff_back :
    diff_timespec (record { tv_sec = 4; tv_nsec = 0 }) (record { tv_sec = 3; tv_nsec = 400000000 })
    ≡ some (1000, 400)
unfolding diff_timespec
diff_back = refl

cmp_seconds :
    cmp_timespec (record { tv_sec = 3; tv_nsec = 9 }) (record { tv_sec = 4; tv_nsec = 0 }) ≡ earlier
unfolding cmp_timespec
cmp_seconds = refl

add_timespec_ends_example :
    (t : Timespec) × (add_timespec (record { tv_sec = 3; tv_nsec = 900000000 }) 1200 ≡ some t)
    × (nanoseconds t ≡ nanoseconds (record { tv_sec = 3; tv_nsec = 900000000 }) + 1200 * 1000000)
    × (t.tv_nsec ≤ 1000000000)
add_timespec_ends_example = add_timespec_ends (record { tv_sec = 3; tv_nsec = 900000000 }) 1200
