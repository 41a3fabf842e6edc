-- ===== src/MergeSort/Whole.antt =====
-- The barrier program as a whole: the threads' heap sorts, and the merge behind the barrier.
use myapue.Base.{ℕ, zero, suc, ◌+◌, ◌-◌, ◌*◌, ◌≤◌, ◌<◌, ◌≡◌, refl, ap, sym, ◌∙◌, arith, dec_lt}
use myapue.Base.{
  List, [], ◌∷◌, length, count, take, drop, Option, some, count-append, count-take-drop, drop-drop,
  length-append, length-take, length-drop, nil_of_length,
}
use myapue.HeapSort.{at}
use myapue.HeapSort.Sorted.{IsAscending}
use myapue.MergeSort.{start, limit, initial_indexes, merge, main, rand_max}
use myapue.MergeSort.Left.{left, Within, Heads}
use myapue.MergeSort.Merge.{IsOrdered, Merges, merge_from-Merges}
use myapue.MergeSort.Parts.{Finishes, AreThreads, PartAscending, run_threads-Parted}

limit-start : (n j : ℕ) → limit n j ≡ start n j + n
unfolding limit start
limit-start n j = grind arith

start-suc : (n j : ℕ) → start n (j + 1) ≡ start n j + n
unfolding start
start-suc n j = grind arith

start-zero : (n : ℕ) → start n 0 ≡ 0
unfolding start
start-zero n = omega arith

start_lem : (n j : ℕ) → start n j ≡ j * n
unfolding start
start_lem n j = grind arith

mul-le : (n a b : ℕ) → a ≤ b → a * n ≤ b * n
mul-le n a b h = grind arith

module _ (n : ℕ) (xs : List ℕ) where
  initial-Within :
      (rounds j : ℕ)
      → start n j + rounds * n ≤ length xs
      → Within n xs j (initial_indexes n rounds j)
  unfolding initial_indexes
  initial-Within zero j h = tt
  initial-Within (suc rounds) j h = (
    omega arith,
    omega (arith, limit-start n j),
    omega (arith, limit-start n j, h),
    initial-Within rounds (j + 1) (omega (arith, start-suc n j, h)),
  )

  Heads-zero : (j : ℕ) (indexes : List ℕ) → Heads n xs 0 j indexes
  Heads-zero j [] = tt
  Heads-zero j (index ∷ indexes) = (λ h. omega arith, Heads-zero (j + 1) indexes)

  -- At the start everything is left.
  count-left_initial :
      (u rounds j : ℕ)
      → start n j + rounds * n ≡ length xs
      → count u (left n xs j (initial_indexes n rounds j)) ≡ count u (drop (start n j) xs)
  unfolding left initial_indexes
  count-left_initial u zero j h =
      let le : start n j ≤ length xs = omega arith in
      rw (nil_of_length (drop (start n j) xs) (omega (arith, length-drop (start n j) xs le))) refl
  count-left_initial u (suc rounds) j h =
      let e : limit n j - start n j ≡ n = omega (arith, limit-start n j) in
      rw e (
        omega (
          arith,
          count-append u (take n (drop (start n j) xs))
              (left n xs (j + 1) (initial_indexes n rounds (j + 1))),
          count-left_initial u rounds (j + 1) (omega (arith, start-suc n j, h)),
          count-take-drop u n (drop (start n j) xs),
          ap (count u) (drop-drop (start n j) n xs),
          ap (λ (a : ℕ). count u (drop a xs)) (start-suc n j),
        ))

  length-left_initial :
      (rounds j : ℕ)
      → start n j + rounds * n ≤ length xs
      → length (left n xs j (initial_indexes n rounds j)) ≡ rounds * n
  unfolding left initial_indexes
  length-left_initial zero j h = omega arith
  length-left_initial (suc rounds) j h =
      let e : limit n j - start n j ≡ n = omega (arith, limit-start n j) in
      let le : start n j ≤ length xs = omega arith in
      let room : n ≤ length (drop (start n j) xs) = omega (arith, length-drop (start n j) xs le) in
      rw e (
        omega (
          arith,
          length-append (take n (drop (start n j) xs))
              (left n xs (j + 1) (initial_indexes n rounds (j + 1))),
          length-left_initial rounds (j + 1) (omega (arith, start-suc n j, h)),
          length-take n (drop (start n j) xs) room,
        ))

  part_ascending :
      (threads : ℕ)
      → length xs ≡ threads * n
      → ((j : ℕ) → j < threads → PartAscending n j xs)
      → (j k : ℕ) → limit n j ≤ length xs
      → start n j ≤ k
      → suc k < limit n j
      → at xs k ≤ at xs (suc k)
  part_ascending threads len up j k within l lt = elim (dec_lt j threads) [
    | yes h ↦
        up j h k (omega (arith, start_lem n j)) (omega (arith, start_lem n j, limit-start n j))
    | no h ↦
        absurd (omega (arith, start_lem n j, limit-start n j, mul-le n threads j (omega arith)))
  ]

  merge-Merges :
      (threads : ℕ) (beyond : ℕ → ℕ)
      → length xs ≡ threads * n
      → ((j : ℕ) → j < threads → PartAscending n j xs)
      → ((k : ℕ) → k < length xs → at xs k < rand_max)
      → Merges 0 xs (merge n threads beyond xs)
  unfolding merge
  merge-Merges threads beyond len up small =
      let ascending : (j k : ℕ)
          → limit n j ≤ length xs
          → start n j ≤ k
          → suc k < limit n j
          → at xs k ≤ at xs (suc k) =
        part_ascending threads len up in
      let merged =
        merge_from-Merges n xs beyond ascending small (threads * n) 0 0
          (initial_indexes n threads 0)
          (initial-Within threads 0 (omega (arith, start-zero n, len))) (Heads-zero 0 _)
          (length-left_initial threads 0 (omega (arith, start-zero n, len))) in
      record {
        out = merged.out;
        returns = merged.returns;
        ordered = merged.ordered;
        same_count = λ u.
            merged.same_count u
            ∙ count-left_initial u threads 0 (omega (arith, start-zero n, len))
            ∙ ap (λ (a : ℕ). count u (drop a xs)) (start-zero n);
        same_length =
            merged.same_length
            ∙ length-left_initial threads 0 (omega (arith, start-zero n, len))
            ∙ sym len;
      }

pub IsOrdered-IsAscending : (b : ℕ) (xs : List ℕ) → IsOrdered b xs → IsAscending 0 (length xs) xs
IsOrdered-IsAscending b [] h j l lt = absurd (omega arith)
IsOrdered-IsAscending b (x ∷ []) h j l lt = absurd (omega arith)
IsOrdered-IsAscending b (x ∷ y ∷ xs) h zero l lt = h.1.0
IsOrdered-IsAscending b (x ∷ y ∷ xs) h (suc j) l lt =
    IsOrdered-IsAscending x (y ∷ xs) h.1 j (omega arith) (omega arith)

-- A normal return of the numbers `xs` in ascending order.
pub record IsInOrder (xs : List ℕ) (result : Option (List ℕ)) : Type 0 where
  pub out : List ℕ
  pub returns : result ≡ some out
  pub ascending : IsAscending 0 (length out) out
  pub same_length : length out ≡ length xs
  pub same_count : (u : ℕ) → count u out ≡ count u xs

-- For any number of threads and of numbers to a thread, whatever lies beyond the array, and in
-- whatever order the threads finish: where random_numbers has a part for each thread and its numbers
-- are below RAND_MAX, main leaves in sorted_numbers the same numbers, each as often as before, in
-- ascending order; the heap sorts and the merge end, and no index goes beyond
-- thread_initial_index.
pub main-IsInOrder :
    (n threads : ℕ) (beyond : ℕ → ℕ) (order xs : List ℕ)
    → length xs ≡ threads * n
    → ((k : ℕ) → k < length xs → at xs k < rand_max)
    → AreThreads n threads order
    → ((j : ℕ) → j < threads → Finishes n j order)
    → IsInOrder xs (main n threads beyond order xs)
unfolding main
main-IsInOrder n threads beyond order xs len small are all =
    let parted = run_threads-Parted n threads order xs len are in
    let kept = parted.keeps in
    let merged =
      merge-Merges n parted.out threads beyond (kept.same_length ∙ len)
        (λ j h. parted.finished j (all j h))
        (λ k h.
          let le =
            kept.bounded (rand_max - 1) (λ i li. omega (arith, small i li)) k
              (omega (arith, h, kept.same_length)) in
          omega (arith, le)) in
    record {
      out = merged.out;
      returns = rw parted.returns merged.returns;
      ascending = IsOrdered-IsAscending 0 merged.out merged.ordered;
      same_length = merged.same_length ∙ kept.same_length;
      same_count = λ u. merged.same_count u ∙ kept.same_count u;
    }
