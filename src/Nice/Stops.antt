-- ===== src/Nice/Stops.antt =====
-- When the threads stop.
use myapue.Base.{
  ℕ, zero, suc, ◌+◌, ◌*◌, ◌≤◌, ◌<◌, subst, ◌≡◌, ◌==◌, ltb, refl, arith, true, false, Bool-cases,
  inl, inr, Option, none, some,
}
use myapue.Nice.{
  Timeval, thread_num, long_max, Ending, exited, returned, overflows, counting, is_over, end_of,
  check, thread_entry, create, sum_of, add, join, Fork, fork_error, child, parent, Exit, failure,
  prints, report, main,
}

-- In microseconds.
abbrev pub time : Timeval → ℕ
time tv = tv.tv_sec * 1000000 + tv.tv_usec

-- A clock with proper microseconds that reads a time before the end at first, at which the end has
-- come at the latest in the reading number `last`, and of which two readings in a row are never
-- further apart than from the end to the next full second.
pub record Ticks (end : Timeval) (last : ℕ) (clock : ℕ → Timeval) : Type 0 where
  pub proper : (n : ℕ) → (clock n).tv_usec < 1000000
  pub starts : time (clock 0) < time end
  pub moves : (n : ℕ) → time (clock (suc n)) + end.tv_usec ≤ time (clock n) + 1000000
  pub arrives : time end ≤ time (clock last)

-- A thread has stopped at the reading `suc n`, the first behind which the end has come.
abbrev pub StopsAt : Timeval → ℕ → (ℕ → Timeval) → Ending → Type 0
StopsAt end last clock (exited (suc (suc n))) =
    (time (clock n) < time end) × (time end ≤ time (clock (suc n))) × (suc n ≤ last)
StopsAt end last clock _ = ⊥

is_over-true :
    (end before tv : Timeval)
    → tv.tv_usec < 1000000
    → time before < time end
    → time tv + end.tv_usec ≤ time before + 1000000
    → time end ≤ time tv
    → is_over end tv ≡ true
is_over-true end before tv proper early step late = ground arith

is_over-false : (end tv : Timeval) → time tv < time end → is_over end tv ≡ false
is_over-false end tv early = ground arith

-- A round whose reading is after the end, or before it.
check-over :
    (end tv : Timeval) (sum : ℕ) (rest : Ending)
    → suc sum ≤ long_max
    → is_over end tv ≡ true
    → check end tv (suc sum) rest ≡ exited (suc sum)
unfolding check
check-over end tv sum rest small late = ground arith

check-early :
    (end tv : Timeval) (sum : ℕ) (rest : Ending)
    → suc sum ≤ long_max
    → is_over end tv ≡ false
    → check end tv (suc sum) rest ≡ rest
unfolding check
check-early end tv sum rest small early = ground arith

module _ (end : Timeval) (last : ℕ) (clock : ℕ → Timeval) (ticks : Ticks end last clock)
    (small : suc last ≤ long_max) where
  not_last : (n : ℕ) → n ≤ last → time (clock n) < time end → n < last
  not_last n le early = elim (Bool-cases (n == last)) [
    | inl same ↦
        let e : n ≡ last = ground arith in
        omega (arith, subst (λ k. time (clock k) < time end) e early, ticks.arrives)
    | inr other ↦ ground arith
  ]

  -- From the reading number n on, which is before the end.
  thread_entry-from :
      (rounds n : ℕ)
      → n < last
      → last ≤ rounds + n
      → time (clock n) < time end
      → StopsAt end last clock (thread_entry clock end rounds (suc n))
  unfolding thread_entry
  thread_entry-from zero n lt enough early = omega (arith, lt, enough)
  thread_entry-from (suc rounds) n lt enough early =
      elim (Bool-cases (ltb (time (clock (suc n))) (time end))) [
        | inl still ↦
            let before : time (clock (suc n)) < time end = ground arith in
            rw
              (check-early end (clock (suc n)) (suc n) (thread_entry clock end rounds (suc (suc n)))
                (omega (arith, lt, small)) (is_over-false end (clock (suc n)) before))
              (thread_entry-from rounds (suc n) (not_last (suc n) (omega (arith, lt)) before)
                (omega (arith, enough)) before)
        | inr come ↦
            let reached : time end ≤ time (clock (suc n)) = ground arith in
            rw
              (check-over end (clock (suc n)) (suc n) (thread_entry clock end rounds (suc (suc n)))
                (omega (arith, lt, small))
                (is_over-true end (clock n) (clock (suc n)) (ticks.proper (suc n)) early
                  (ticks.moves n) reached))
              (early, reached, omega (arith, lt))
      ]

  thread_entry-StopsAt :
      (rounds : ℕ) → last < rounds → StopsAt end last clock (thread_entry clock end rounds 0)
  unfolding thread_entry
  thread_entry-StopsAt zero enough = omega (arith, enough)
  thread_entry-StopsAt (suc rounds) enough =
      rw
        (check-early end (clock 0) 0 (thread_entry clock end rounds 1) (omega (arith, small))
          (is_over-false end (clock 0) ticks.starts))
        (thread_entry-from rounds 0 (not_last 0 (omega arith) ticks.starts) (omega (arith, enough))
          ticks.starts)

-- The sums of the threads below i add up to the total.
abbrev pub Totals : Timeval → ℕ → (ℕ → ℕ → Timeval) → ℕ → ℕ → Type 0
Totals end last clocks zero total = total ≡ 0
Totals end last clocks (suc i) total =
    (sum : ℕ) × (rest : ℕ) × StopsAt end last (clocks i) (exited sum)
    × Totals end last clocks i rest
    × (total ≡ sum + rest)

-- main prints the total.
abbrev pub Prints : Timeval → ℕ → (ℕ → ℕ → Timeval) → Exit → Type 0
Prints end last clocks (prints total) = Totals end last clocks thread_num total
Prints end last clocks _ = ⊥

-- How main may end.
abbrev pub PrintsTotal : Timeval → ℕ → (ℕ → ℕ → Timeval) → Fork → Exit → Type 0
PrintsTotal end last clocks fork_error e = e ≡ failure
PrintsTotal end last clocks (child true) e = e ≡ failure
PrintsTotal end last clocks (child false) e = Prints end last clocks e
PrintsTotal end last clocks parent e = Prints end last clocks e

-- What join makes of threads that have stopped.
abbrev Joins : Timeval → ℕ → (ℕ → ℕ → Timeval) → ℕ → Option ℕ → Type 0
Joins end last clocks i (some total) = Totals end last clocks i total × (total ≤ i * suc last)
Joins end last clocks i none = ⊥

add-Joins :
    (end : Timeval) (last : ℕ) (clocks : ℕ → ℕ → Timeval) (i : ℕ) (e : Ending) (rest : Option ℕ)
    → suc i * suc last ≤ long_max
    → StopsAt end last (clocks i) e
    → Joins end last clocks i rest
    → Joins end last clocks (suc i) (add (sum_of e) rest)
add-Joins end last clocks i (exited (suc (suc n))) (some total) small stops (totals, le) =
    rw fits ((suc (suc n), total, stops, totals, refl), omega (arith, le, stops.2))
  where
    fits : ltb long_max (suc (suc n) + total) ≡ false
    fits = ground (arith, le, stops.2, small)
add-Joins end last clocks i (exited (suc (suc n))) none small stops joins = absurd joins
add-Joins end last clocks i (exited (suc zero)) rest small stops joins = absurd stops
add-Joins end last clocks i (exited zero) rest small stops joins = absurd stops
add-Joins end last clocks i returned rest small stops joins = absurd stops
add-Joins end last clocks i overflows rest small stops joins = absurd stops
add-Joins end last clocks i (counting sum) rest small stops joins = absurd stops

join-Joins :
    (end : Timeval) (last : ℕ) (clocks : ℕ → ℕ → Timeval)
    → ((i : ℕ) → Ticks end last (clocks i))
    → (rounds : ℕ) → last < rounds
    → (i : ℕ) → i * suc last ≤ long_max
    → Joins end last clocks i (join (create clocks end rounds i))
unfolding join create
join-Joins end last clocks ticks rounds enough zero small = (refl, omega arith)
join-Joins end last clocks ticks rounds enough (suc i) small =
    add-Joins end last clocks i _ (join (create clocks end rounds i)) small
      (thread_entry-StopsAt end last (clocks i) (ticks i) (omega (arith, small)) rounds enough)
      (join-Joins end last clocks ticks rounds enough i (omega (arith, small)))

report-Prints :
    (end : Timeval) (last : ℕ) (clocks : ℕ → ℕ → Timeval) (total : Option ℕ)
    → Joins end last clocks thread_num total
    → Prints end last clocks (report total)
report-Prints end last clocks (some total) joins = joins.0
report-Prints end last clocks none joins = joins

-- Where each thread's clock begins before the end, never moves on in one step by more than the time from
-- the end to the next full second, and has come to the end at its reading number `last`, for a
-- `last` of which the sums have room in a long long: where fork fails, or nice in the child, main
-- returns -1; else, with enough rounds, every thread stops, each at a reading for which the end has
-- come and before which it had not, within `last` readings after its first, with the number of its
-- readings as its sum, and main prints the total of these sums.
pub main-PrintsTotal :
    (clocks : ℕ → ℕ → Timeval) (now : Timeval) (last rounds : ℕ)
    → ((i : ℕ) → Ticks (end_of now) last (clocks i))
    → thread_num * suc last ≤ long_max
    → last < rounds
    → (fork : Fork) → PrintsTotal (end_of now) last clocks fork (main clocks now rounds fork)
unfolding main
main-PrintsTotal clocks now last rounds ticks small enough = forked
  where
    prints_total :
        Prints
          (end_of now)
          last
          clocks
          (report (join (create clocks (end_of now) rounds thread_num)))
    prints_total =
        report-Prints (end_of now) last clocks (join (create clocks (end_of now) rounds thread_num))
          (join-Joins (end_of now) last clocks ticks rounds enough thread_num small)

    forked : (fork : Fork) → PrintsTotal (end_of now) last clocks fork (main clocks now rounds fork)
    forked fork_error = refl
    forked (child true) = refl
    forked (child false) = prints_total
    forked parent = prints_total
