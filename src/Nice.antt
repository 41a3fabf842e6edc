-- ===== src/Nice.antt =====
-- 08.proccontrol/11_nice.c: eight threads that count until a time is over. They share only that time,
-- which nothing changes, so each is modelled by itself, with what gettimeofday answers it.
pub mod Stops
mod Examples
use myapue.Base.{
  ℕ, zero, suc, ◌+◌, ◌*◌, ◌==◌, ltb, leb, if◌then◌else◌, ◌&&◌, Bool, true, false, List, [], ◌∷◌,
  Option, none, some,
}

pub record Timeval : Type 0 where
  pub tv_sec : ℕ
  pub tv_usec : ℕ

abbrev pub thread_num : ℕ
thread_num = 8

-- The greatest long long, 2 ^ 63 - 1
abbrev pub long_max : ℕ
long_max = 9223372036854775807

-- How a thread ends: pthread_exit in check_time, the return where its sum is 0, or an overflow of
-- the sum, which is undefined; `counting` is a thread that has not ended in the rounds given.
pub data Ending : Type 0 where
  exited : (sum : ℕ) → Ending
  returned : Ending
  overflows : Ending
  counting : (sum : ℕ) → Ending

-- The test of check_time.
abbrev pub is_over : Timeval → Timeval → Bool
is_over end tv = leb end.tv_sec tv.tv_sec && leb end.tv_usec tv.tv_usec

-- gettimeofday(&end, NULL); end.tv_sec += 10
abbrev pub end_of : Timeval → Timeval
end_of now = record now { tv_sec = now.tv_sec + 10 }

-- A round with the sum behind its increment; `rest` is the rest of the loop.
pub check : Timeval → Timeval → ℕ → Ending → Ending
check end tv sum rest =
    if ltb long_max sum
    then overflows
    else if sum == 0
    then returned
    else if is_over end tv
    then exited sum
    else rest

-- The loop, for a number of rounds, from a sum on. `clock n` is what gettimeofday answers the thread
-- for the time number n, from 0 on.
pub thread_entry : (ℕ → Timeval) → Timeval → ℕ → ℕ → Ending
unfolding check
thread_entry clock end zero sum = counting sum
thread_entry clock end (suc rounds) sum =
    let rest = thread_entry clock end rounds (suc sum) in check end (clock sum) (suc sum) rest

-- The threads, `clocks i` for the one number i, the last in front.
pub create : (ℕ → ℕ → Timeval) → Timeval → ℕ → ℕ → List Ending
unfolding thread_entry
create clocks end rounds zero = []
create clocks end rounds (suc i) = thread_entry (clocks i) end rounds 0 ∷ create clocks end rounds i

-- The sum that a thread leaves; pthread_join waits for ever for one that does not end.
abbrev pub sum_of : Ending → Option ℕ
sum_of (exited sum) = some sum
sum_of returned = some 0
sum_of overflows = none
sum_of (counting sum) = none

abbrev pub add : Option ℕ → Option ℕ → Option ℕ
add (some x) (some y) = if ltb long_max (x + y) then none else some (x + y)
add _ _ = none

-- The loop on pthread_join: none where a thread does not end, or a sum overflows.
pub join : List Ending → Option ℕ
join [] = some 0
join (e ∷ rest) = add (sum_of e) (join rest)

-- What fork answers, in the child with whether nice has failed.
pub data Fork : Type 0 where
  fork_error : Fork
  child : (nice_error : Bool) → Fork
  parent : Fork

-- main returns -1, or prints a total and returns 0, or it comes to neither.
pub data Exit : Type 0 where
  failure : Exit
  prints : (total : ℕ) → Exit
  nothing : Exit

abbrev pub report : Option ℕ → Exit
report (some total) = prints total
report none = nothing

-- `now` is what gettimeofday answers to main.
pub main : (ℕ → ℕ → Timeval) → Timeval → ℕ → Fork → Exit
unfolding create join
main clocks now rounds fork_error = failure
main clocks now rounds (child true) = failure
main clocks now rounds (child false) = report (join (create clocks (end_of now) rounds thread_num))
main clocks now rounds parent = report (join (create clocks (end_of now) rounds thread_num))
