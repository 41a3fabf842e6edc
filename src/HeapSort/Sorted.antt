-- ===== src/HeapSort/Sorted.antt =====
-- heap_sort: what the two phases together compute.
use myapue.Base.{ℕ, zero, suc, ◌+◌, ◌/◌, ◌≤◌, ◌<◌, ◌≡◌, refl}
use myapue.Base.{arith, List, length, some, ℕ_discrete, sym, ◌∙◌, subst, Option}
use myapue.HeapSort.{at, swap, node_adjust_down, ◌>>=◌, build_heap, extract_from, heap_sort}
use myapue.HeapSort.Swap.{swap_right, swap_other}
use myapue.HeapSort.Swap.{
  Rearranges, Rearranges-refl, Rearranges-trans, Rearranges-swap, Rearranges-le,
}
use myapue.HeapSort.Sift.{IsHeap, build_heap-Sifted, adjust_root-Sifted}

-- No element of a heap is greater than the first; `bound` limits the depth of the climb.
root_max_below :
    (bound n : ℕ) (xs : List ℕ) → IsHeap 0 n xs → (c : ℕ) → c ≤ bound → c < n → at xs c ≤ at xs 0
root_max_below zero n xs heap c b l = ground arith
root_max_below (suc bound) n xs heap zero b l = omega arith
root_max_below (suc bound) n xs heap (suc c) b l = ground (
  arith,
  heap (c / 2) (suc c),
  root_max_below bound n xs heap (c / 2) (omega arith) (omega arith),
)

pub root_max : (n : ℕ) (xs : List ℕ) → IsHeap 0 n xs → (c : ℕ) → c < n → at xs c ≤ at xs 0
root_max n xs heap c l = root_max_below n n xs heap c (omega arith) l

-- In ascending order from index `lo` up to `n`.
abbrev pub IsAscending : ℕ → ℕ → List ℕ → Type 0
IsAscending lo n xs = (j : ℕ) → lo ≤ j → suc j < n → at xs j ≤ at xs (suc j)

-- The last elements from `i` on are sorted, and none before them is greater.
record IsSplit (i n : ℕ) (xs : List ℕ) : Type 0 where
  sorted : IsAscending i n xs
  above : (j : ℕ) → i ≤ j → j < n → (k : ℕ) → k < i → at xs k ≤ at xs j

-- One round of the loop: the greatest element goes to its place, and the rest is a heap again.
record IsRound (i n : ℕ) (xs : List ℕ) : Type 0 where
  out : List ℕ
  returns : node_adjust_down (suc i + 1) (swap xs 0 (suc i)) 0 (suc i) ≡ some out
  heap : IsHeap 0 (suc i) out
  split : IsSplit (suc i) n out
  moved : Rearranges n xs out

module _ (i n : ℕ) (xs : List ℕ) (fits : suc i < n) (len : n ≤ length xs) where
  abbrev swapped : List ℕ
  swapped = swap xs 0 (suc i)

  swapped-Rearranges : Rearranges (suc (suc i)) xs swapped
  swapped-Rearranges =
      Rearranges-swap (suc (suc i)) xs 0 (suc i) (omega arith) (omega arith) (omega arith)
        (omega arith)

  last_is_root : at swapped (suc i) ≡ at xs 0
  last_is_root = swap_right xs 0 (suc i) (omega arith) (omega arith)

  swapped-IsHeap : IsHeap 0 (suc (suc i)) xs → IsHeap 1 (suc i) swapped
  swapped-IsHeap heap p c lp ch l = ground (
    arith,
    swap_other xs 0 (suc i) (omega arith) (omega arith) p,
    swap_other xs 0 (suc i) (omega arith) (omega arith) c,
    heap p c,
  )

  extract-IsSplit :
      (out : List ℕ)
      → IsHeap 0 (suc (suc i)) xs
      → IsSplit (suc (suc i)) n xs
      → Rearranges (suc i) swapped out
      → IsSplit (suc i) n out
  extract-IsSplit out heap split moved = record { sorted = sorted; above = above }
    where
      first : at out (suc i) ≡ at xs 0
      first = moved.outside (suc i) (omega arith) ∙ last_is_root

      later : (j : ℕ) → suc (suc i) ≤ j → at out j ≡ at xs j
      later j h = moved.outside j (omega arith) ∙ swapped-Rearranges.outside j h

      sorted : IsAscending (suc i) n out
      sorted j lj lt = elim (ℕ_discrete j (suc i)) [
        | yes e ↦
            subst (λ m. at out m ≤ at out (suc m)) (sym e)
              (omega (
                arith,
                first,
                later (suc (suc i)) (omega arith),
                split.above (suc (suc i)) (omega arith) (omega arith) 0 (omega arith),
              ))
        | no ne ↦ omega (
          arith,
          later j (omega arith),
          later (suc j) (omega arith),
          split.sorted j (omega arith) lt,
        )
      ]

      above : (j : ℕ) → suc i ≤ j → j < n → (k : ℕ) → k < suc i → at out k ≤ at out j
      above j lj lt k lk = elim (ℕ_discrete j (suc i)) [
        | yes e ↦
            subst (λ m. at out k ≤ at out m) (sym e)
              (rw first (
                moved.bounded (at xs 0)
                  (λ a la.
                    swapped-Rearranges.bounded (at xs 0) (root_max (suc (suc i)) xs heap) a
                      (omega arith))
                  k lk))
        | no ne ↦ rw (later j (omega arith)) (
            moved.bounded (at xs j)
              (λ a la.
                swapped-Rearranges.bounded (at xs j) (split.above j (omega arith) lt) a
                  (omega arith))
              k lk)
      ]

  extract-IsRound : IsHeap 0 (suc (suc i)) xs → IsSplit (suc (suc i)) n xs → IsRound i n xs
  extract-IsRound heap split =
      let step =
        adjust_root-Sifted (suc i) swapped (omega arith)
          (omega (arith, swapped-Rearranges.same_length)) (swapped-IsHeap heap) in
      record {
        out = step.out;
        returns = step.returns;
        heap = step.heap;
        split = extract-IsSplit step.out heap split step.moved;
        moved =
            Rearranges-le (omega arith)
              (Rearranges-trans swapped-Rearranges (Rearranges-le (omega arith) step.moved));
      }

-- A normal return with the first `n` elements in ascending order, the same elements as before
-- with the same multiplicities, and nothing changed from index `n` on.
pub record IsSorted (n : ℕ) (xs : List ℕ) (result : Option (List ℕ)) : Type 0 where
  pub out : List ℕ
  pub returns : result ≡ some out
  pub ascending : IsAscending 0 n out
  pub moved : Rearranges n xs out

extract_from-IsSorted :
    (i n : ℕ) (xs : List ℕ)
    → i < n
    → n ≤ length xs
    → IsHeap 0 (suc i) xs
    → IsSplit (suc i) n xs
    → IsSorted n xs (extract_from i xs)
unfolding extract_from
extract_from-IsSorted zero n xs l len heap split = record {
  out = xs;
  returns = refl;
  ascending = ascending;
  moved = Rearranges-refl n xs;
}
  where
    ascending : IsAscending 0 n xs
    ascending zero lj lt = split.above 1 (omega arith) lt 0 (omega arith)
    ascending (suc j) lj lt = split.sorted (suc j) (omega arith) lt
extract_from-IsSorted (suc i) n xs l len heap split =
    let step = extract-IsRound i n xs l len heap split in
    let rest =
      extract_from-IsSorted i n step.out (omega arith) (omega (arith, step.moved.same_length))
        step.heap step.split in
    record {
      out = rest.out;
      returns = rw step.returns rest.returns;
      ascending = rest.ascending;
      moved = Rearranges-trans step.moved rest.moved;
    }

-- Past the early return the two phases follow one another.
long :
    (k : ℕ) (xs : List ℕ)
    → heap_sort xs (suc (suc k)) ≡ (build_heap xs (suc (suc k)) >>= extract_from (suc k))
unfolding heap_sort
long k xs = ground arith

-- heap_sort returns on every array at least `n` long, its result has the first `n` elements in
-- ascending order, and it is the array with those elements rearranged: every number stands in it
-- as often as before, and what lies from index `n` on is unchanged.
pub heap_sort-IsSorted : (n : ℕ) (xs : List ℕ) → n ≤ length xs → IsSorted n xs (heap_sort xs n)
unfolding heap_sort
heap_sort-IsSorted zero xs len = record {
  out = xs;
  returns = refl;
  ascending = λ j lj lt. absurd (omega arith);
  moved = Rearranges-refl 0 xs;
}
heap_sort-IsSorted (suc zero) xs len = record {
  out = xs;
  returns = refl;
  ascending = λ j lj lt. absurd (omega arith);
  moved = Rearranges-refl 1 xs;
}
heap_sort-IsSorted (suc (suc k)) xs len =
    let built = build_heap-Sifted (suc (suc k)) xs len in
    let rest =
      extract_from-IsSorted (suc k) (suc (suc k)) built.out (omega arith)
        (omega (arith, built.moved.same_length)) built.heap (no_split built.out) in
    record {
      out = rest.out;
      returns = rw (long k xs, built.returns) rest.returns;
      ascending = rest.ascending;
      moved = Rearranges-trans built.moved rest.moved;
    }
  where
    no_split : (ys : List ℕ) → IsSplit (suc (suc k)) (suc (suc k)) ys
    no_split ys = record {
      sorted = λ j lj lt. absurd (omega arith);
      above = λ j lj lt k lk. absurd (omega arith);
    }
