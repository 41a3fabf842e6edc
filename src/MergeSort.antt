-- ===== src/MergeSort.antt =====
-- thread_function, merge and main of 11.threads/09_barrier.c: the threads sort their parts of one
-- array, and behind the barrier main merges the parts. `thread_count` and `thread_number_count` stand
-- for THREAD_COUNT and THREAD_NUMBER_COUNT.
pub mod Left
pub mod Select
pub mod Merge
pub mod Parts
pub mod Whole
pub mod Unique
mod Examples
use myapue.Base.{ℕ, zero, suc, ◌+◌, ◌-◌, ◌*◌, ◌^◌, ltb, if◌then◌else◌, ◌&&◌}
use myapue.Base.{Option, none, some, List, [], ◌∷◌, ◌++◌, get_or, set, take, drop, length}
use myapue.HeapSort.{at, ◌>>=◌, heap_sort}

abbrev pub int_max : ℕ
int_max = 2 ^ 31 - 1

abbrev pub rand_max : ℕ
rand_max = 2 ^ 31 - 1

-- min_thread_index and min_number
pub record Least : Type 0 where
  pub thread : ℕ
  pub number : ℕ

module _ (thread_number_count : ℕ) where
  -- THREAD_NUMBER_COUNT * i and (j + 1) * THREAD_NUMBER_COUNT
  pub start : ℕ → ℕ
  start i = thread_number_count * i

  pub limit : ℕ → ℕ
  limit j = (j + 1) * thread_number_count

  -- The heap sort of a thread, on the array from its part on.
  pub thread_function : ℕ → List ℕ → Option (List ℕ)
  thread_function thread_index random_numbers = do
    sorted ←
        heap_sort (drop (thread_index * thread_number_count) random_numbers) thread_number_count
    some (take (thread_index * thread_number_count) random_numbers ++ sorted)

  -- The threads in the order in which they finish.
  pub run_threads : List ℕ → List ℕ → Option (List ℕ)
  unfolding thread_function
  run_threads [] random_numbers = some random_numbers
  run_threads (k ∷ order) random_numbers = do
    sorted ← thread_function k random_numbers
    run_threads order sorted

  module _ (random_numbers : List ℕ) where
    -- The loop over the threads, from j on. The element is read before its index is tested; what
    -- lies beyond the array is `beyond`.
    pub select : ℕ → ℕ → List ℕ → Least → Least
    select beyond j [] best = best
    select beyond j (index ∷ indexes) best = select beyond (j + 1) indexes (
        if ltb (get_or random_numbers index beyond) best.number && ltb index (limit j)
        then record { thread = j; number = get_or random_numbers index beyond }
        else best)

    -- ++thread_initial_index[min_thread_index], an access outside the array being undefined
    abbrev pub advance : ℕ → List ℕ → Option (List ℕ)
    advance thread indexes =
        if ltb thread (length indexes)
        then some (set indexes thread (at indexes thread + 1))
        else none

    -- The loop over the numbers from i on: sorted_numbers from there on.
    pub merge_from : (ℕ → ℕ) → ℕ → ℕ → List ℕ → Option (List ℕ)
    unfolding select
    merge_from beyond zero i indexes = some []
    merge_from beyond (suc rounds) i indexes = do
      let least = select (beyond i) 0 indexes (record { thread = int_max; number = rand_max })
      indexes' ← advance least.thread indexes
      rest ← merge_from beyond rounds (i + 1) indexes'
      some (least.number ∷ rest)

  -- The first loop of merge, from i on for a number of rounds.
  pub initial_indexes : ℕ → ℕ → List ℕ
  unfolding start
  initial_indexes zero i = []
  initial_indexes (suc rounds) i = start i ∷ initial_indexes rounds (i + 1)

  module _ (thread_count : ℕ) where
    pub merge : (ℕ → ℕ) → List ℕ → Option (List ℕ)
    unfolding merge_from initial_indexes
    merge beyond random_numbers =
        merge_from random_numbers beyond (thread_count * thread_number_count) 0
          (initial_indexes thread_count 0)

    -- What main leaves in sorted_numbers, for the numbers that random yields.
    pub main : (ℕ → ℕ) → List ℕ → List ℕ → Option (List ℕ)
    unfolding run_threads merge
    main beyond order random_numbers = do
      sorted ← run_threads order random_numbers
      merge beyond sorted
