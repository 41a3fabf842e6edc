-- ===== src/MergeSort/Select.antt =====
-- The loop over the threads finds the least of the next numbers.
use myapue.Base.{
  ℕ, zero, suc, ◌+◌, ◌≤◌, ◌<◌, ◌≡◌, ◌⊎◌, inl, inr, refl, ap, arith, ltb, ◌&&◌, Bool-cases,
}
use myapue.Base.{List, [], ◌∷◌, length, get_or}
use myapue.HeapSort.{at}
use myapue.MergeSort.{limit, Least, select}
use myapue.MergeSort.Left.{Within, IsHead, Heads}

get_or-at : (xs : List ℕ) (i d : ℕ) → i < length xs → get_or xs i d ≡ at xs i
get_or-at [] i d h = absurd (omega arith)
get_or-at (x ∷ xs) zero d h = refl
get_or-at (x ∷ xs) (suc i) d h = get_or-at xs i d (omega arith)

-- `found` is the least of `best` and of the next numbers from thread j on.
pub record Selects (n : ℕ) (xs : List ℕ) (j : ℕ) (indexes : List ℕ) (best found : Least)
    : Type 0 where
  pub below : found.number ≤ best.number
  pub least : Heads n xs found.number j indexes
  pub from :
      (found ≡ best) ⊎ ((p : ℕ) × (found.thread ≡ j + p) × IsHead n xs j indexes p found.number)

module _ (n : ℕ) (xs : List ℕ) (beyond : ℕ) where
  pub select-Selects :
      (j : ℕ) (indexes : List ℕ) (best : Least)
      → Within n xs j indexes
      → Selects n xs j indexes best (select n xs beyond j indexes best)
  unfolding select
  select-Selects j [] best w = record { below = omega arith; least = tt; from = inl refl }
  select-Selects j (index ∷ indexes) best w =
      elim (Bool-cases (ltb (get_or xs index beyond) best.number && ltb index (limit n j))) [
        | inl better ↦
            let next : Least = record { thread = j; number = get_or xs index beyond } in
            let s = select-Selects (j + 1) indexes next w.3 in
            let lt : index < limit n j = ground (arith, better) in
            let e = get_or-at xs index beyond (omega (arith, w.2, lt)) in
            rw better (record {
              below = ground (arith, better, s.below);
              least = ((λ h. omega (arith, e, s.below)), s.least);
              from = elim s.from [
                | inl same ↦ inr (
                  0,
                  omega (arith, ap (λ (r : Least). r.thread) same),
                  (lt, omega (arith, e, ap (λ (r : Least). r.number) same)),
                )
                | inr q ↦ inr (suc q.0, omega (arith, q.1), q.2)
              ];
            })
        | inr worse ↦
            let s = select-Selects (j + 1) indexes best w.3 in
            rw worse (record {
              below = s.below;
              least = (
                (λ h.
                    ground
                      (arith, worse, get_or-at xs index beyond (omega (arith, w.2, h)), s.below)),
                s.least,
              );
              from = elim s.from [
                | inl same ↦ inl same
                | inr q ↦ inr (suc q.0, omega (arith, q.1), q.2)
              ];
            })
      ]
