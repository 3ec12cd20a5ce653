-- ===== src/Rpc/Timespec/Sum.antt =====
-- Adding a timeout.
use lab.Base.{
  ℕ, zero, suc, ◌+◌, ◌-◌, ◌*◌, ◌/◌, ◌%◌, ◌≤◌, ◌<◌, ◌≡◌, refl, inl, inr, some, ltb, arith,
  Bool-cases,
}
use lab.Rpc.Timespec.{Timespec, carry, add_timespec}

abbrev pub nanoseconds : Timespec → ℕ
nanoseconds t = t.tv_sec * 1000000000 + t.tv_nsec

carry_ends :
    (f sec nsec : ℕ)
    → nsec < f * 1000000000
    → (t : Timespec) × (carry f sec nsec ≡ some t)
      × (nanoseconds t ≡ sec * 1000000000 + nsec)
      × (t.tv_nsec ≤ 1000000000)
unfolding carry
carry_ends zero sec nsec h = absurd (omega arith)
carry_ends (suc f) sec nsec h = elim (Bool-cases (ltb 1000000000 nsec)) [
  | inl more ↦
      let big : 1000000000 < nsec = ground arith in
      let (t, e, sum, small) = carry_ends f (sec + 1) (nsec - 1000000000) (omega arith) in
      (t, rw (more, carry) e, omega (arith, sum), small)
  | inr last ↦ (record { tv_sec = sec; tv_nsec = nsec }, rw (last, carry) refl, refl, ground arith)
]

-- The loop of `add_timespec` ends, within one round more than there are whole seconds in the sum of the nanoseconds:
-- the result is the time with the milliseconds added, and its nanoseconds are at most a second.
pub add_timespec_ends :
    (a : Timespec) (b : ℕ)
    → (t : Timespec) × (add_timespec a b ≡ some t)
      × (nanoseconds t ≡ nanoseconds a + b * 1000000)
      × (t.tv_nsec ≤ 1000000000)
unfolding add_timespec
add_timespec_ends a b =
    let nsec = a.tv_nsec + b % 1000 * 1000000 in
    let (t, e, sum, small) =
      carry_ends (nsec / 1000000000 + 1) (a.tv_sec + b / 1000) nsec (omega arith) in
    (t, e, omega (arith, sum), small)
