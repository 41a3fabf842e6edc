-- ===== src/HeapSort/Sift.antt =====
-- node_adjust_down and build_heap: sifting down repairs a heap with one hole.
use myapue.Base.{ℕ, zero, suc, ◌+◌, ◌*◌, ◌/◌, ◌≤◌, ◌<◌, ◌≡◌, refl, ◌≢◌, ◌⊎◌}
use myapue.Base.{arith, List, length, some, ℕ_discrete, sym, ap, subst, Option}
use myapue.HeapSort.{at, swap, left_or_self, max_index, node_adjust_down, build_from, build_heap}
use myapue.HeapSort.Swap.{swap_left, swap_right, swap_other}
use myapue.HeapSort.Swap.{Rearranges, Rearranges-refl, Rearranges-trans, Rearranges-swap}

-- `c` is the left or the right child of `p`.
abbrev pub Child : ℕ → ℕ → Type 0
Child p c = (c ≡ p * 2 + 1) ⊎ (c ≡ p * 2 + 2)

-- From index `lo` on, no child below `n` is greater than its parent.
abbrev pub IsHeap : ℕ → ℕ → List ℕ → Type 0
IsHeap lo n xs = (p c : ℕ) → lo ≤ p → Child p c → c < n → at xs c ≤ at xs p

-- The same but at `i`, whose children are still bounded by its parent.
record HasHole (lo n i : ℕ) (xs : List ℕ) : Type 0 where
  elsewhere : (p c : ℕ) → lo ≤ p → p ≢ i → Child p c → c < n → at xs c ≤ at xs p
  across : (q c : ℕ) → lo ≤ q → Child q i → Child i c → c < n → at xs c ≤ at xs q

-- What the two tests of a round compute.
record IsMax (n i m : ℕ) (xs : List ℕ) : Type 0 where
  greatest : (c : ℕ) → Child i c → c < n → at xs c ≤ at xs m
  place : (m ≡ i) ⊎ (Child i m × (m < n) × (at xs i < at xs m))

max_index-IsMax : (xs : List ℕ) (i n : ℕ) → IsMax n i (max_index xs i n) xs
unfolding max_index left_or_self
max_index-IsMax xs i n = record { greatest = λ c h l. ground arith; place = ground arith }

IsHeap-of_hole : {lo n i : ℕ} {xs : List ℕ} → HasHole lo n i xs → IsMax n i i xs → IsHeap lo n xs
IsHeap-of_hole {i} hole top p c lp ch l = elim (ℕ_discrete p i) [
  | yes e ↦ ground (arith, top.greatest c)
  | no ne ↦ hole.elsewhere p c lp ne ch l
]

HasHole-swap :
    {lo n i m : ℕ} {xs : List ℕ}
    → lo ≤ i
    → n ≤ length xs
    → HasHole lo n i xs
    → IsMax n i m xs
    → m ≢ i
    → HasHole lo n m (swap xs i m)
HasHole-swap {lo} {n} {i} {m} {xs} li len hole top ne = record {
  elsewhere = below;
  across = λ q c lq qm mc l. grand q c lq qm mc l;
}
  where
    mi : m < length xs
    mi = ground arith

    ii : i < length xs
    ii = ground arith

    ni : i ≢ m
    ni e = ne (sym e)

    below : (p c : ℕ) → lo ≤ p → p ≢ m → Child p c → c < n → at (swap xs i m) c ≤ at (swap xs i m) p
    below p c lp np ch l = ground (
      arith,
      swap_left xs i m ii mi,
      swap_right xs i m ii mi,
      swap_other xs i m ii mi c,
      swap_other xs i m ii mi p,
      top.greatest c,
      hole.elsewhere p c,
      hole.across p m,
    )

    grand :
        (q c : ℕ) → lo ≤ q → Child q m → Child m c → c < n → at (swap xs i m) c ≤ at (swap xs i m) q
    grand q c lq qm mc l = ground (
      arith,
      swap_left xs i m ii mi,
      swap_other xs i m ii mi c,
      hole.elsewhere m c,
      (λ (e : q ≡ i). ap (at (swap xs i m)) e),
    )

-- From a hole at `i` the loop returns a heap that rearranges the first `n` elements; `n - i`
-- rounds are enough.
pub record Sifted (lo n : ℕ) (xs : List ℕ) (result : Option (List ℕ)) : Type 0 where
  pub out : List ℕ
  pub returns : result ≡ some out
  pub heap : IsHeap lo n out
  pub moved : Rearranges n xs out

node_adjust_down-Sifted :
    (fuel lo n i : ℕ) (xs : List ℕ)
    → n < i + fuel
    → lo ≤ i
    → i < n
    → n ≤ length xs
    → HasHole lo n i xs
    → Sifted lo n xs (node_adjust_down fuel xs i n)
unfolding node_adjust_down
node_adjust_down-Sifted zero lo n i xs f li il len hole = absurd (omega arith)
node_adjust_down-Sifted (suc fuel) lo n i xs f li il len hole =
    elim (ℕ_discrete (max_index xs i n) i) [
      | yes e ↦ record {
        out = xs;
        returns = ground arith;
        heap = IsHeap-of_hole hole (subst (λ m. IsMax n i m xs) e top);
        moved = Rearranges-refl n xs;
      }
      | no ne ↦
          let inside : max_index xs i n < n = ground (arith, top.place) in
          let step = Rearranges-swap n xs i (max_index xs i n) len il inside (λ e. ne (sym e)) in
          let rest =
            node_adjust_down-Sifted fuel lo n (max_index xs i n) (swap xs i (max_index xs i n))
              (ground (arith, top.place)) (ground (arith, top.place)) inside
              (omega (arith, step.same_length)) (HasHole-swap li len hole top ne) in
          record {
            out = rest.out;
            returns = ground (arith, rest.returns);
            heap = rest.heap;
            moved = Rearranges-trans step rest.moved;
          }
    ]
  where
    top : IsMax n i (max_index xs i n) xs
    top = max_index-IsMax xs i n

-- A heap from `i + 1` on is a heap from `i` on with a hole at `i`.
HasHole-of_heap : (n i : ℕ) (xs : List ℕ) → IsHeap (suc i) n xs → HasHole i n i xs
HasHole-of_heap n i xs heap = record {
  elsewhere = λ p c lp np ch l. heap p c (omega arith) ch l;
  across = λ q c lq qi ic l. absurd (omega arith);
}

build_from-Sifted :
    (i n : ℕ) (xs : List ℕ)
    → i ≤ n
    → n ≤ length xs
    → IsHeap i n xs
    → Sifted 0 n xs (build_from i xs n)
unfolding build_from
build_from-Sifted zero n xs l len heap = record {
  out = xs;
  returns = refl;
  heap = heap;
  moved = Rearranges-refl n xs;
}
build_from-Sifted (suc i) n xs l len heap =
    let step =
      node_adjust_down-Sifted (n + 1) i n i xs (omega arith) (omega arith) (omega arith) len
        (HasHole-of_heap n i xs heap) in
    let rest =
      build_from-Sifted i n step.out (omega arith) (omega (arith, step.moved.same_length))
        step.heap in
    record {
      out = rest.out;
      returns = rw step.returns rest.returns;
      heap = rest.heap;
      moved = Rearranges-trans step.moved rest.moved;
    }

-- build_heap returns, for every array, a heap with the same elements.
pub build_heap-Sifted : (n : ℕ) (xs : List ℕ) → n ≤ length xs → Sifted 0 n xs (build_heap xs n)
unfolding build_heap
build_heap-Sifted n xs len =
    build_from-Sifted (n / 2) n xs (omega arith) len (λ p c lp ch l. absurd (omega arith))

-- A heap with only its root misplaced is repaired.
pub adjust_root-Sifted :
    (n : ℕ) (xs : List ℕ)
    → 0 < n
    → n ≤ length xs
    → IsHeap 1 n xs
    → Sifted 0 n xs (node_adjust_down (n + 1) xs 0 n)
adjust_root-Sifted n xs pos len heap =
    node_adjust_down-Sifted (n + 1) 0 n 0 xs (omega arith) (omega arith) pos len
      (HasHole-of_heap n 0 xs heap)
