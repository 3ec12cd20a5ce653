-- ===== src/Rpc/Timespec.antt =====
-- The times of the RPC library (rpc/rpc.cc). Seconds, nanoseconds and timeouts are not negative
-- and far below the limits of their types; the difference of two times is an integer.
pub mod Sum
mod Tests
use lab.Base.{
  ℕ, zero, suc, ◌+◌, ◌-◌, ◌*◌, ◌/◌, ◌%◌, Bool, true, false, Option, none, some, if◌then◌else◌, ltb,
  ◌==◌, nat_key,
}

pub record Timespec : Type 0 where
  pub tv_sec : ℕ
  pub tv_nsec : ℕ

-- 1, -1 and 0.
pub data Order : Type 0 where
  later : Order
  earlier : Order
  equal : Order

unfoldable pub cmp_timespec : Timespec → Timespec → Order
cmp_timespec a b =
    if ltb b.tv_sec a.tv_sec
    then later
    else if ltb a.tv_sec b.tv_sec
    then earlier
    else if ltb b.tv_nsec a.tv_nsec
    then later
    else if ltb a.tv_nsec b.tv_nsec
    then earlier
    else equal

-- The loop of `add_timespec`, with fuel; `none` where there is not enough.
unfoldable pub carry : ℕ → ℕ → ℕ → Option Timespec
carry zero sec nsec = none
carry (suc f) sec nsec =
    let rest = carry f (sec + 1) (nsec - 1000000000) in
    if ltb 1000000000 nsec then rest else some (record { tv_sec = sec; tv_nsec = nsec })

unfoldable pub add_timespec : Timespec → ℕ → Option Timespec
add_timespec a b =
    let nsec = a.tv_nsec + b % 1000 * 1000000 in
    carry (nsec / 1000000000 + 1) (a.tv_sec + b / 1000) nsec

-- `plus - minus`; `none` is the failed assertion.
unfoldable pub diff_timespec : Timespec → Timespec → Option (ℕ × ℕ)
diff_timespec end_time start =
    let diff =
      (if ltb start.tv_sec end_time.tv_sec then (end_time.tv_sec - start.tv_sec) * 1000 else 0) in
    if diff == 0
    then (if end_time.tv_sec == start.tv_sec then by_nsec 0 else none)
    else by_nsec diff
  where
    by_nsec : ℕ → Option (ℕ × ℕ)
    by_nsec diff =
        if ltb start.tv_nsec end_time.tv_nsec
        then some (diff + (end_time.tv_nsec - start.tv_nsec) / 1000000, 0)
        else some (diff, (start.tv_nsec - end_time.tv_nsec) / 1000000)
