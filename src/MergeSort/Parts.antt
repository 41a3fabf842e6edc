-- ===== src/MergeSort/Parts.antt =====
-- What the threads leave: each part of the array in ascending order, in whatever order they finish.
use myapue.Base.{
  ℕ, zero, suc, ◌+◌, ◌-◌, ◌*◌, ◌≤◌, ◌<◌, ◌≡◌, ◌⊎◌, inl, inr, refl, ap, sym, ◌∙◌, arith, dec_lt,
  ℕ_discrete,
}
use myapue.Base.{
  List, [], ◌∷◌, ◌++◌, length, count, take, drop, Option, some, count-append, length-append,
  length-drop, length-take-drop, count-take-drop,
}
use myapue.HeapSort.{at, heap_sort}
use myapue.HeapSort.Swap.{Rearranges}
use myapue.HeapSort.Sorted.{IsAscending, IsSorted, heap_sort-IsSorted}
use myapue.MergeSort.{thread_function, run_threads}

at-drop : (lo i : ℕ) (xs : List ℕ) → at (drop lo xs) i ≡ at xs (lo + i)
at-drop zero i xs = ap (at xs) (omega arith)
at-drop (suc lo) i [] = refl
at-drop (suc lo) i (x ∷ xs) =
    let e : suc lo + i ≡ suc (lo + i) = omega arith in rw e (at-drop lo i xs)

at-take_append :
    (lo i : ℕ) (xs ys : List ℕ) → i < lo → lo ≤ length xs → at (take lo xs ++ ys) i ≡ at xs i
at-take_append zero i xs ys h le = absurd (omega arith)
at-take_append (suc lo) i [] ys h le = absurd (omega arith)
at-take_append (suc lo) zero (x ∷ xs) ys h le = refl
at-take_append (suc lo) (suc i) (x ∷ xs) ys h le =
    at-take_append lo i xs ys (omega arith) (omega arith)

at-append_right :
    (lo i : ℕ) (xs ys : List ℕ) → lo ≤ length xs → at (take lo xs ++ ys) (lo + i) ≡ at ys i
at-append_right zero i xs ys le = ap (at ys) (omega arith)
at-append_right (suc lo) i [] ys le = absurd (omega arith)
at-append_right (suc lo) i (x ∷ xs) ys le =
    let e : suc lo + i ≡ suc (lo + i) = omega arith in
    rw e (at-append_right lo i xs ys (omega arith))

-- `ys` holds the numbers of `xs`.
pub record Keeps (xs ys : List ℕ) : Type 0 where
  pub same_length : length ys ≡ length xs
  pub same_count : (u : ℕ) → count u ys ≡ count u xs
  pub bounded :
      (b : ℕ) → ((k : ℕ) → k < length xs → at xs k ≤ b) → (k : ℕ) → k < length xs → at ys k ≤ b

-- The part of `n` elements from `lo` on has been sorted, and the rest left alone.
record Sorts (lo n : ℕ) (xs ys : List ℕ) : Type 0 where
  keeps : Keeps xs ys
  ascending : IsAscending lo (lo + n) ys
  before : (i : ℕ) → i < lo → at ys i ≡ at xs i
  after : (i : ℕ) → lo + n ≤ i → at ys i ≡ at xs i

module _ (lo n : ℕ) (xs : List ℕ) (fits : lo + n ≤ length xs) where
  abbrev sorted_tail : IsSorted n (drop lo xs) (heap_sort (drop lo xs) n)
  sorted_tail = heap_sort-IsSorted n (drop lo xs) (omega (arith, length-drop lo xs))

  module _ (out : List ℕ) (up : IsAscending 0 n out) (moved : Rearranges n (drop lo xs) out) where
    abbrev joined : List ℕ
    joined = take lo xs ++ out

    joined-right : (i : ℕ) → at joined (lo + i) ≡ at out i
    joined-right i = at-append_right lo i xs out (omega arith)

    joined_before : (i : ℕ) → i < lo → at joined i ≡ at xs i
    joined_before i h = at-take_append lo i xs out h (omega arith)

    joined_after : (i : ℕ) → lo + n ≤ i → at joined i ≡ at xs i
    joined_after i h =
        let e : i ≡ lo + (i - lo) = omega arith in
        ap (at joined) e
        ∙ joined-right (i - lo)
        ∙ moved.outside (i - lo) (omega arith)
        ∙ at-drop lo (i - lo) xs
        ∙ sym (ap (at xs) e)

    joined-le :
        (b : ℕ)
        → ((k : ℕ) → k < length xs → at xs k ≤ b)
        → (k : ℕ) → k < length xs
        → at joined k ≤ b
    joined-le b h k lt = elim (dec_lt k lo) [
      | yes p ↦ rw (joined_before k p) (h k lt)
      | no p ↦ elim (dec_lt k (lo + n)) [
        | no q ↦ rw (joined_after k (omega arith)) (h k lt)
        | yes q ↦
            let e : k ≡ lo + (k - lo) = omega arith in
            omega (
              arith,
              ap (at joined) e,
              joined-right (k - lo),
              moved.bounded b (λ i li. omega (arith, at-drop lo i xs, h (lo + i) (omega arith)))
                  (k - lo) (omega arith),
            )
      ]
    ]

    joined-IsAscending : IsAscending lo (lo + n) joined
    joined-IsAscending i l lt =
        let e : i ≡ lo + (i - lo) = omega arith in
        let e' : suc i ≡ lo + suc (i - lo) = omega arith in
        omega (
          arith,
          ap (at joined) e,
          ap (at joined) e',
          joined-right (i - lo),
          joined-right (suc (i - lo)),
          up (i - lo) (omega arith) (omega arith),
        )

    joined-Sorts : Sorts lo n xs joined
    joined-Sorts = record {
      keeps = record {
        same_length =
            omega
              (arith, length-append (take lo xs) out, length-take-drop lo xs, moved.same_length);
        same_count = λ u.
            omega
              (arith, count-append u (take lo xs) out, count-take-drop u lo xs, moved.same_count u);
        bounded = joined-le;
      };
      ascending = joined-IsAscending;
      before = joined_before;
      after = joined_after;
    }

parts_apart : (j k n : ℕ) → j < k → j * n + n ≤ k * n
parts_apart j k n h = grind arith

module _ (n : ℕ) where
  thread_function-Sorts :
      (k : ℕ) (xs : List ℕ)
      → k * n + n ≤ length xs
      → (ys : List ℕ) × (thread_function n k xs ≡ some ys) × Sorts (k * n) n xs ys
  unfolding thread_function
  thread_function-Sorts k xs fits =
      let sorted = sorted_tail (k * n) n xs fits in
      (
        take (k * n) xs ++ sorted.out,
        (rw sorted.returns refl),
        joined-Sorts (k * n) n xs fits sorted.out sorted.ascending sorted.moved,
      )

  -- Whether a thread is among those that finish.
  abbrev pub Finishes : ℕ → List ℕ → Type 0
  Finishes j [] = ⊥
  Finishes j (k ∷ order) = (j ≡ k) ⊎ Finishes j order

  abbrev pub AreThreads : ℕ → List ℕ → Type 0
  AreThreads threads [] = Unit {0}
  AreThreads threads (k ∷ order) = (k < threads) × AreThreads threads order

  abbrev pub PartAscending : ℕ → List ℕ → Type 0
  PartAscending j xs = IsAscending (j * n) (j * n + n) xs

  Keeps-trans : {xs ys zs : List ℕ} → Keeps xs ys → Keeps ys zs → Keeps xs zs
  Keeps-trans p q = record {
    same_length = q.same_length ∙ p.same_length;
    same_count = λ u. q.same_count u ∙ p.same_count u;
    bounded = λ b h k lt. q.bounded b (λ i li. p.bounded b h i (omega arith)) k (omega arith);
  }

  -- Another part stays as it is.
  Sorts-PartAscending :
      (j k : ℕ) (xs ys : List ℕ) → Sorts (k * n) n xs ys → PartAscending j xs → PartAscending j ys
  Sorts-PartAscending j k xs ys s up = elim (ℕ_discrete j k) [
    | yes e ↦ rw e s.ascending
    | no ne ↦ λ i l lt. elim (dec_lt j k) [
      | yes h ↦
          let apart = parts_apart j k n h in
          omega (arith, apart, s.before i (omega arith), s.before (suc i) (omega arith), up i l lt)
      | no h ↦
          let apart = parts_apart k j n (omega arith) in
          omega (arith, apart, s.after i (omega arith), s.after (suc i) (omega arith), up i l lt)
    ]
  ]

  -- A normal return of the same numbers, each part in ascending order whose thread has finished or
  -- that was so before.
  pub record Parted (order : List ℕ) (xs : List ℕ) (result : Option (List ℕ)) : Type 0 where
    pub out : List ℕ
    pub returns : result ≡ some out
    pub keeps : Keeps xs out
    pub finished : (j : ℕ) → Finishes j order → PartAscending j out
    pub kept : (j : ℕ) → PartAscending j xs → PartAscending j out

  pub run_threads-Parted :
      (threads : ℕ) (order xs : List ℕ)
      → length xs ≡ threads * n
      → AreThreads threads order
      → Parted order xs (run_threads n order xs)
  unfolding run_threads
  run_threads-Parted threads [] xs len are = record {
    out = xs;
    returns = refl;
    keeps = record { same_length = refl; same_count = λ u. refl; bounded = λ b h k lt. h k lt };
    finished = λ j f. absurd f;
    kept = λ j up. up;
  }
  run_threads-Parted threads (k ∷ order) xs len are =
      let (ys, returned, s) =
        thread_function-Sorts k xs (omega (arith, parts_apart k threads n are.0)) in
      let rest = run_threads-Parted threads order ys (s.keeps.same_length ∙ len) are.1 in
      record {
        out = rest.out;
        returns = rw returned rest.returns;
        keeps = Keeps-trans s.keeps rest.keeps;
        finished = λ j f. elim f [
          | inl e ↦ rest.kept j (rw e s.ascending)
          | inr later ↦ rest.finished j later
        ];
        kept = λ j up. rest.kept j (Sorts-PartAscending j k xs ys s up);
      }
