-- ===== src/HeapSort/Examples.antt =====
-- The theorems about the heap sort at small arrays, and tests.
use myapue.Base.{ℕ, ◌≡◌, refl, arith, List, [], ◌∷◌, some}
use myapue.HeapSort.{
  node_adjust_down, build_heap, heap_sort, build_from, max_index, left_or_self, swap, extract_from,
}
use myapue.HeapSort.Sorted.{IsSorted, heap_sort-IsSorted}

abbrev numbers : List ℕ
numbers = 4 ∷ 1 ∷ 7 ∷ 7 ∷ 0 ∷ 9 ∷ 2 ∷ []

sorts_numbers : heap_sort numbers 7 ≡ some (0 ∷ 1 ∷ 2 ∷ 4 ∷ 7 ∷ 7 ∷ 9 ∷ [])
unfolding heap_sort build_heap build_from node_adjust_down max_index left_or_self swap extract_from
sorts_numbers = refl

-- Only the first three elements.
sorts_part : heap_sort numbers 3 ≡ some (1 ∷ 4 ∷ 7 ∷ 7 ∷ 0 ∷ 9 ∷ 2 ∷ [])
unfolding heap_sort build_heap build_from node_adjust_down max_index left_or_self swap extract_from
sorts_part = refl

heap_sort-IsSorted_example : IsSorted 7 numbers (heap_sort numbers 7)
heap_sort-IsSorted_example = heap_sort-IsSorted 7 numbers (omega arith)
