-- ===== src/MergeSort/Left.antt =====
-- The numbers that the merge has not taken yet.
use myapue.Base.{ℕ, zero, suc, ◌+◌, ◌-◌, ◌≤◌, ◌<◌, ◌≡◌, refl, arith}
use myapue.Base.{
  List, [], ◌∷◌, ◌++◌, length, take, drop, count, set, count-append, length-append, indicator,
  dec_lt,
}
use myapue.HeapSort.{at}
use myapue.MergeSort.{start, limit}

-- The elements from index a up to b.
abbrev pub part : List ℕ → ℕ → ℕ → List ℕ
part xs a b = take (b - a) (drop a xs)

drop-at : (a : ℕ) (xs : List ℕ) → a < length xs → drop a xs ≡ at xs a ∷ drop (suc a) xs
drop-at a [] h = absurd (omega arith)
drop-at zero (x ∷ xs) h = refl
drop-at (suc a) (x ∷ xs) h = drop-at a xs (omega arith)

part-next :
    (xs : List ℕ) (a b : ℕ) → a < b → b ≤ length xs → part xs a b ≡ at xs a ∷ part xs (suc a) b
part-next xs a b lt le =
    let e : b - a ≡ suc (b - suc a) = omega arith in rw (e, drop-at a xs (omega arith)) refl

module _ (n : ℕ) (xs : List ℕ) where
  -- What is left from thread j on.
  unfoldable pub left : ℕ → List ℕ → List ℕ
  left j [] = []
  left j (index ∷ indexes) = part xs index (limit n j) ++ left (j + 1) indexes

  -- The indexes lie within the threads' parts, and these within the array.
  abbrev pub Within : ℕ → List ℕ → Type 0
  Within j [] = Unit {0}
  Within j (index ∷ indexes) =
      (start n j ≤ index) × (index ≤ limit n j) × (limit n j ≤ length xs) × Within (j + 1) indexes

  -- The next number of the thread at a position is `v`.
  abbrev pub IsHead : ℕ → List ℕ → ℕ → ℕ → Type 0
  IsHead j [] p v = ⊥
  IsHead j (index ∷ indexes) zero v = (index < limit n j) × (at xs index ≡ v)
  IsHead j (index ∷ indexes) (suc p) v = IsHead (j + 1) indexes p v

  -- No next number is below `b`.
  abbrev pub Heads : ℕ → ℕ → List ℕ → Type 0
  Heads b j [] = Unit {0}
  Heads b j (index ∷ indexes) = (index < limit n j → b ≤ at xs index) × Heads b (j + 1) indexes

  abbrev pub advanced : ℕ → List ℕ → List ℕ
  advanced p indexes = set indexes p (at indexes p + 1)

  pub Within-advanced :
      (j p v : ℕ) (indexes : List ℕ)
      → Within j indexes
      → IsHead j indexes p v
      → Within j (advanced p indexes)
  Within-advanced j p v [] w h = absurd h
  Within-advanced j zero v (index ∷ indexes) w h =
      (omega (arith, w.0), omega (arith, h.0), w.2, w.3)
  Within-advanced j (suc p) v (index ∷ indexes) w h =
      (w.0, w.1, w.2, Within-advanced (j + 1) p v indexes w.3 h)

  pub count-left-advanced :
      (u j p v : ℕ) (indexes : List ℕ)
      → Within j indexes
      → IsHead j indexes p v
      → count u (left j indexes) ≡ indicator u v + count u (left j (advanced p indexes))
  unfolding left
  count-left-advanced u j p v [] w h = absurd h
  count-left-advanced u j zero v (index ∷ indexes) w h =
      let e : suc index ≡ index + 1 = omega arith in
      rw (part-next xs index (limit n j) h.0 w.2, e, h.1) refl
  count-left-advanced u j (suc p) v (index ∷ indexes) w h = omega (
    arith,
    count-append u (part xs index (limit n j)) (left (j + 1) indexes),
    count-append u (part xs index (limit n j)) (left (j + 1) (advanced p indexes)),
    count-left-advanced u (j + 1) p v indexes w.3 h,
  )

  pub length-left-advanced :
      (j p v : ℕ) (indexes : List ℕ)
      → Within j indexes
      → IsHead j indexes p v
      → length (left j indexes) ≡ suc (length (left j (advanced p indexes)))
  unfolding left
  length-left-advanced j p v [] w h = absurd h
  length-left-advanced j zero v (index ∷ indexes) w h =
      let e : suc index ≡ index + 1 = omega arith in
      rw (part-next xs index (limit n j) h.0 w.2, e) refl
  length-left-advanced j (suc p) v (index ∷ indexes) w h = omega (
    arith,
    length-append (part xs index (limit n j)) (left (j + 1) indexes),
    length-append (part xs index (limit n j)) (left (j + 1) (advanced p indexes)),
    length-left-advanced (j + 1) p v indexes w.3 h,
  )

  -- Taking the least number leaves no smaller one, where each part is in ascending order.
  pub Heads-advanced :
      (ascending : (j k : ℕ)
        → limit n j ≤ length xs
        → start n j ≤ k
        → suc k < limit n j
        → at xs k ≤ at xs (suc k))
      (j p v : ℕ) (indexes : List ℕ)
      → Within j indexes
      → IsHead j indexes p v
      → Heads v j indexes
      → Heads v j (advanced p indexes)
  Heads-advanced ascending j p v [] w h b = absurd h
  Heads-advanced ascending j zero v (index ∷ indexes) w h b =
      let e : suc index ≡ index + 1 = omega arith in
      (λ lt. rw (← e) (omega (arith, h.1, ascending j index w.2 w.0 (omega (arith, lt)))), b.1)
  Heads-advanced ascending j (suc p) v (index ∷ indexes) w h b =
      (b.0, Heads-advanced ascending (j + 1) p v indexes w.3 h b.1)

  -- What is left is not below `b` where some number is left.
  pub Heads-lt :
      (m b j : ℕ) (indexes : List ℕ)
      → ((k : ℕ) → k < length xs → at xs k < m)
      → Within j indexes
      → Heads b j indexes
      → 0 < length (left j indexes)
      → b < m
  unfolding left
  Heads-lt m b j [] small w h pos = absurd (omega arith)
  Heads-lt m b j (index ∷ indexes) small w h pos = elim (dec_lt index (limit n j)) [
    | yes more ↦ omega (arith, h.0 more, small index (omega (arith, w.2)))
    | no done ↦
        let e : limit n j - index ≡ 0 = omega arith in
        Heads-lt m b (j + 1) indexes small w.3 h.1 (rw e at pos)
  ]
