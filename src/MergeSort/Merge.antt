-- ===== src/MergeSort/Merge.antt =====
-- The loop over the numbers takes what is left in ascending order.
use myapue.Base.{ℕ, zero, suc, ◌+◌, ◌≤◌, ◌<◌, ◌≡◌, inl, inr, refl, ap, sym, arith, ltb, true}
use myapue.Base.{List, [], ◌∷◌, length, count, Option, some, nil_of_length}
use myapue.HeapSort.{at}
use myapue.MergeSort.{start, limit, Least, select, merge_from, rand_max, int_max}
use myapue.MergeSort.Left.{
  left, Within, IsHead, Heads, advanced, Within-advanced, count-left-advanced, length-left-advanced,
  Heads-advanced, Heads-lt,
}
use myapue.MergeSort.Select.{select-Selects}

-- In ascending order, and not below `b`.
abbrev pub IsOrdered : ℕ → List ℕ → Type 0
IsOrdered b [] = Unit {0}
IsOrdered b (x ∷ xs) = (b ≤ x) × IsOrdered x xs

-- A normal return of the numbers `ys` in ascending order, none below `b`.
pub record Merges (b : ℕ) (ys : List ℕ) (result : Option (List ℕ)) : Type 0 where
  pub out : List ℕ
  pub returns : result ≡ some out
  pub ordered : IsOrdered b out
  pub same_count : (u : ℕ) → count u out ≡ count u ys
  pub same_length : length out ≡ length ys

module _ (n : ℕ) (xs : List ℕ) where
  IsHead-lt_length : (j p v : ℕ) (indexes : List ℕ) → IsHead n xs j indexes p v → p < length indexes
  IsHead-lt_length j p v [] h = absurd h
  IsHead-lt_length j zero v (index ∷ indexes) h = omega arith
  IsHead-lt_length j (suc p) v (index ∷ indexes) h =
      omega (arith, IsHead-lt_length (j + 1) p v indexes h)

  Heads-le :
      (b j p v : ℕ) (indexes : List ℕ) → Heads n xs b j indexes → IsHead n xs j indexes p v → b ≤ v
  Heads-le b j p v [] w h = absurd h
  Heads-le b j zero v (index ∷ indexes) w h = omega (arith, w.0 h.0, h.1)
  Heads-le b j (suc p) v (index ∷ indexes) w h = Heads-le b (j + 1) p v indexes w.1 h

  module _ (beyond : ℕ → ℕ)
      (ascending : (j k : ℕ)
        → limit n j ≤ length xs
        → start n j ≤ k
        → suc k < limit n j
        → at xs k ≤ at xs (suc k))
      (small : (k : ℕ) → k < length xs → at xs k < rand_max) where
    pub merge_from-Merges :
        (rounds i b : ℕ) (indexes : List ℕ)
        → Within n xs 0 indexes
        → Heads n xs b 0 indexes
        → length (left n xs 0 indexes) ≡ rounds
        → Merges b (left n xs 0 indexes) (merge_from n xs beyond rounds i indexes)
    unfolding merge_from
    merge_from-Merges zero i b indexes w h len = record {
      out = [];
      returns = refl;
      ordered = tt;
      same_count = λ u. ap (count u) (sym (nil_of_length _ len));
      same_length = sym len;
    }
    merge_from-Merges (suc rounds) i b indexes w h len =
        let best : Least = record { thread = int_max; number = rand_max } in
        let s = select-Selects n xs (beyond i) 0 indexes best w in
        elim s.from [
          | inl same ↦
              let lt =
                Heads-lt n xs rand_max (select n xs (beyond i) 0 indexes best).number 0 indexes
                  small w s.least (omega (arith, len)) in
              absurd (omega (arith, lt, ap (λ (r : Least). r.number) same))
          | inr q ↦
              let v = (select n xs (beyond i) 0 indexes best).number in
              let p = q.0 in
              let e : (select n xs (beyond i) 0 indexes best).thread ≡ p = omega (arith, q.1) in
              let in_list : ltb p (length indexes) ≡ true =
                ground (arith, IsHead-lt_length 0 p v indexes q.2) in
              let rest =
                merge_from-Merges rounds (i + 1) v (advanced n xs p indexes)
                  (Within-advanced n xs 0 p v indexes w q.2)
                  (Heads-advanced n xs ascending 0 p v indexes w q.2 s.least)
                  (omega (arith, len, length-left-advanced n xs 0 p v indexes w q.2)) in
              record {
                out = v ∷ rest.out;
                returns = rw (e, in_list, rest.returns) refl;
                ordered = (Heads-le b 0 p v indexes h q.2, rest.ordered);
                same_count = λ u.
                    omega
                      (arith, rest.same_count u, count-left-advanced n xs u 0 p v indexes w q.2);
                same_length =
                    omega (arith, rest.same_length, length-left-advanced n xs 0 p v indexes w q.2);
              }
        ]
