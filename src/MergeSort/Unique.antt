-- ===== src/MergeSort/Unique.antt =====
-- The barrier program against one heap sort of the whole array.
use myapue.Base.{ℕ, suc, ◌*◌, ◌≤◌, ◌<◌, ◌≡◌, refl, ap, sym, ◌∙◌, arith}
use myapue.Base.{List, [], ◌∷◌, length, count, indicator, some}
use myapue.HeapSort.{at, heap_sort}
use myapue.HeapSort.Sorted.{IsAscending, heap_sort-IsSorted}
use myapue.MergeSort.{main, rand_max}
use myapue.MergeSort.Merge.{IsOrdered}
use myapue.MergeSort.Parts.{Finishes, AreThreads}
use myapue.MergeSort.Whole.{main-IsInOrder}

IsAscending-IsOrdered :
    (b : ℕ) (xs : List ℕ)
    → (0 < length xs → b ≤ at xs 0)
    → IsAscending 0 (length xs) xs
    → IsOrdered b xs
IsAscending-IsOrdered b [] h up = tt
IsAscending-IsOrdered b (x ∷ xs) h up = (
  h (omega arith),
  IsAscending-IsOrdered x xs (λ pos. up 0 (omega arith) (omega arith))
      (λ j l lt. up (suc j) (omega arith) (omega arith)),
)

-- What stands in an ordered list is not below its bound.
bound-le : (b u : ℕ) (xs : List ℕ) → IsOrdered b xs → 0 < count u xs → b ≤ u
bound-le b u [] h pos = absurd (omega arith)
bound-le b u (x ∷ xs) h pos = ground (arith, bound-le x u xs h.1, h.0)

-- Two ordered lists with the same counts are the same list.
ordered_unique :
    (b c : ℕ) (xs ys : List ℕ)
    → IsOrdered b xs
    → IsOrdered c ys
    → ((u : ℕ) → count u xs ≡ count u ys)
    → xs ≡ ys
ordered_unique b c [] [] h k same = refl
ordered_unique b c [] (y ∷ ys) h k same = absurd (ground (arith, same y))
ordered_unique b c (x ∷ xs) [] h k same = absurd (ground (arith, same x))
ordered_unique b c (x ∷ xs) (y ∷ ys) h k same =
    let le : x ≤ y = ground (arith, same y, bound-le x y xs h.1) in
    let ge : y ≤ x = ground (arith, same x, bound-le y x ys k.1) in
    let e : x ≡ y = omega arith in
    let rest : xs ≡ ys =
      ordered_unique x y xs ys h.1 k.1 (λ u. omega (arith, same u, ap (indicator u) e)) in
    cc (e, rest)

-- For any number of threads and of numbers to a thread, whatever lies beyond the array, and in
-- whatever order the threads finish: where random_numbers has a part for each thread and its numbers
-- are below RAND_MAX, main leaves in sorted_numbers what one heap_sort of the whole array would.
pub main-eq-heap_sort :
    (n threads : ℕ) (beyond : ℕ → ℕ) (order xs : List ℕ)
    → length xs ≡ threads * n
    → ((k : ℕ) → k < length xs → at xs k < rand_max)
    → AreThreads n threads order
    → ((j : ℕ) → j < threads → Finishes n j order)
    → main n threads beyond order xs ≡ heap_sort xs (length xs)
main-eq-heap_sort n threads beyond order xs len small are all =
    let m = main-IsInOrder n threads beyond order xs len small are all in
    let s = heap_sort-IsSorted (length xs) xs (omega arith) in
    let same : m.out ≡ s.out =
      ordered_unique 0 0 m.out s.out (IsAscending-IsOrdered 0 m.out (λ h. omega arith) m.ascending)
        (IsAscending-IsOrdered 0 s.out (λ h. omega arith)
          (λ j l lt. s.ascending j l (omega (arith, s.moved.same_length))))
        (λ u. m.same_count u ∙ sym (s.moved.same_count u)) in
    m.returns ∙ ap some same ∙ sym s.returns
