-- ===== src/Nice/Examples.antt =====
-- The theorem at concrete clocks.
use myapue.Base.{ℕ, zero, suc, ◌+◌, ◌<◌, ◌≤◌, ◌≡◌, false, refl, arith}
use myapue.Nice.{Timeval, end_of, is_over, parent, main}
use myapue.Nice.Stops.{time, Ticks, PrintsTotal, main-PrintsTotal}

abbrev now : Timeval
now = record { tv_sec = 0; tv_usec = 500000 }

-- A microsecond before the end at first, and then the end.
abbrev clock : ℕ → Timeval
clock zero = record { tv_sec = 10; tv_usec = 499999 }
clock (suc n) = record { tv_sec = 10; tv_usec = 500000 }

clock-Ticks : Ticks (end_of now) 1 clock
clock-Ticks = record { proper = proper; starts = omega arith; moves = moves; arrives = omega arith }
  where
    proper : (n : ℕ) → (clock n).tv_usec < 1000000
    proper zero = omega arith
    proper (suc n) = omega arith

    moves : (n : ℕ) → time (clock (suc n)) + (end_of now).tv_usec ≤ time (clock n) + 1000000
    moves zero = omega arith
    moves (suc n) = omega arith

-- Almost six seconds after the end, a thread still counts.
missed : is_over (end_of now) (record { tv_sec = 16; tv_usec = 499999 }) ≡ false
missed = refl

main-PrintsTotal_example :
    PrintsTotal (end_of now) 1 (λ i. clock) parent (main (λ i. clock) now 2 parent)
main-PrintsTotal_example =
    main-PrintsTotal (λ i. clock) now 1 2 (λ i. clock-Ticks) (omega arith) (omega arith) parent
