-- ===== src/MergeSort/Examples.antt =====
-- Two threads of three numbers.
use myapue.Base.{ℕ, ◌≡◌, ◌<◌, refl, arith, List, [], ◌∷◌, length, some, none}
use myapue.HeapSort.{at}
use myapue.MergeSort.{main, merge, rand_max}
use myapue.MergeSort.Parts.{Finishes}
use myapue.MergeSort.Whole.{IsInOrder, main-IsInOrder}

abbrev numbers : List ℕ
numbers = 4 ∷ 1 ∷ 7 ∷ 2 ∷ 9 ∷ 1 ∷ []

abbrev second_first : List ℕ
second_first = 1 ∷ 0 ∷ []

numbers_small : (k : ℕ) → k < length numbers → at numbers k < rand_max
numbers_small k h = ground (arith, h)

both_finish : (j : ℕ) → j < 2 → Finishes 3 j second_first
both_finish j h = ground (arith, h)

-- A number that is RAND_MAX is never chosen.
merges_parts : merge 3 2 (λ i. 0) (1 ∷ 4 ∷ 7 ∷ 1 ∷ 2 ∷ 9 ∷ []) ≡ some (1 ∷ 1 ∷ 2 ∷ 4 ∷ 7 ∷ 9 ∷ [])
unfolding merge myapue.MergeSort.limit myapue.MergeSort.start
merges_parts = refl

misses_rand_max : merge 1 1 (λ i. 0) (rand_max ∷ []) ≡ none
unfolding merge myapue.MergeSort.limit myapue.MergeSort.start
misses_rand_max = refl

main-IsInOrder_example : IsInOrder numbers (main 3 2 (λ i. 0) second_first numbers)
main-IsInOrder_example =
    main-IsInOrder 3 2 (λ i. 0) second_first numbers refl numbers_small (omega arith) both_finish
