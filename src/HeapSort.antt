-- ===== src/HeapSort.antt =====
-- heap_sort, build_heap and node_adjust_down of 11.threads/09_barrier.c. The array is a list;
-- its numbers are those of `random() % NUMBER_COUNT`, which are not negative. A `while (1)` takes
-- fuel, and `none` means that the fuel ran out.
pub mod Swap
pub mod Sift
pub mod Sorted
mod Examples
use myapue.Base.{ℕ, zero, suc, ◌+◌, ◌-◌, ◌*◌, ◌/◌, ltb, leb, ◌==◌, if◌then◌else◌, ◌&&◌}
use myapue.Base.{Option, none, some, List, get_or, set}

-- array[i], for an index inside the array
abbrev pub at : List ℕ → ℕ → ℕ
at array i = get_or array i 0

-- The exchange of two elements through `temp`.
pub swap : List ℕ → ℕ → ℕ → List ℕ
swap array i j = set (set array i (at array j)) j (at array i)

-- `max_index` after the two tests of a round.
pub left_or_self : List ℕ → ℕ → ℕ → ℕ
left_or_self array index length =
    let l_child = index * 2 + 1 in
    if ltb l_child length && ltb (at array index) (at array l_child) then l_child else index

pub max_index : List ℕ → ℕ → ℕ → ℕ
max_index array index length =
    let r_child = index * 2 + 2 in
    let m = left_or_self array index length in
    if ltb r_child length && ltb (at array m) (at array r_child) then r_child else m

pub node_adjust_down : ℕ → List ℕ → ℕ → ℕ → Option (List ℕ)
node_adjust_down zero array index length = none
node_adjust_down (suc fuel) array index length =
    let m = max_index array index length in
    let rest = node_adjust_down fuel (swap array index m) m length in
    if m == index then some array else rest

infixl 5 ◌>>=◌
abbrev pub ◌>>=◌ : Option (List ℕ) → (List ℕ → Option (List ℕ)) → Option (List ℕ)
none >>= f = none
some array >>= f = f array

-- The loop of `build_heap` with `left` rounds to go: `i` runs from `left - 1` down to 0. A round
-- gets fuel for every index of the array.
pub build_from : ℕ → List ℕ → ℕ → Option (List ℕ)
build_from zero array length = some array
build_from (suc i) array length = do
  array' ← node_adjust_down (length + 1) array i length
  build_from i array' length

pub build_heap : List ℕ → ℕ → Option (List ℕ)
build_heap array length = build_from (length / 2) array length

-- The loop of `heap_sort`: `i` runs down to 1.
pub extract_from : ℕ → List ℕ → Option (List ℕ)
extract_from zero array = some array
extract_from (suc i) array = do
  array' ← node_adjust_down (suc i + 1) (swap array 0 (suc i)) 0 (suc i)
  extract_from i array'

pub heap_sort : List ℕ → ℕ → Option (List ℕ)
heap_sort array length =
    if leb length 1
    then some array
    else do array' ← build_heap array length; extract_from (length - 1) array'
