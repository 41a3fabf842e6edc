-- ===== src/HeapSort/Swap.antt =====
-- What exchanging two elements leaves alone, and the relation that every phase of the sort keeps.
use myapue.Base.{
  ℕ, ◌≤◌, ◌<◌, ◌≡◌, refl, ◌≢◌, ◌∙◌, sym, ap, subst, arith, List, set, ℕ_discrete, dec_lt,
}
use myapue.Base.{length, count, count-set, length-set, get_or-set_self, get_or-set_ne, indicator}
use myapue.HeapSort.{at, swap}

module _ (xs : List ℕ) (i j : ℕ) (hi : i < length xs) (hj : j < length xs) where
  pub length-swap : length (swap xs i j) ≡ length xs
  unfolding swap
  length-swap = length-set _ j _ ∙ length-set xs i _

  pub swap_right : at (swap xs i j) j ≡ at xs i
  unfolding swap
  swap_right = get_or-set_self _ j _ 0 (omega (arith, length-set xs i (at xs j)))

  pub swap_left : i ≢ j → at (swap xs i j) i ≡ at xs j
  unfolding swap
  swap_left ne = get_or-set_ne _ j i _ 0 (λ e. ne (omega arith)) ∙ get_or-set_self xs i _ 0 hi

  pub swap_other : (k : ℕ) → k ≢ i → k ≢ j → at (swap xs i j) k ≡ at xs k
  unfolding swap
  swap_other k ki kj =
      get_or-set_ne _ j k _ 0 (λ e. kj (omega arith))
      ∙ get_or-set_ne xs i k _ 0 (λ e. ki (omega arith))

  pub count-swap : i ≢ j → (v : ℕ) → count v (swap xs i j) ≡ count v xs
  unfolding swap
  count-swap ne v = omega (
    arith,
    count-set v xs i (at xs j) hi,
    count-set v (set xs i (at xs j)) j (at xs i) (omega (arith, length-set xs i (at xs j))),
    ap (indicator v) (get_or-set_ne xs i j (at xs j) 0 ne),
  )

-- `ys` is `xs` with its first `n` elements rearranged.
pub record Rearranges (n : ℕ) (xs ys : List ℕ) : Type 0 where
  pub same_length : length ys ≡ length xs
  pub same_count : (v : ℕ) → count v ys ≡ count v xs
  pub outside : (k : ℕ) → n ≤ k → at ys k ≡ at xs k
  pub bounded : (b : ℕ) → ((k : ℕ) → k < n → at xs k ≤ b) → (k : ℕ) → k < n → at ys k ≤ b

pub Rearranges-refl : (n : ℕ) (xs : List ℕ) → Rearranges n xs xs
Rearranges-refl n xs = record {
  same_length = refl;
  same_count = λ v. refl;
  outside = λ k h. refl;
  bounded = λ b h k l. h k l;
}

pub Rearranges-trans :
    {n : ℕ} {xs ys zs : List ℕ} → Rearranges n xs ys → Rearranges n ys zs → Rearranges n xs zs
Rearranges-trans p q = record {
  same_length = q.same_length ∙ p.same_length;
  same_count = λ v. q.same_count v ∙ p.same_count v;
  outside = λ k h. q.outside k h ∙ p.outside k h;
  bounded = λ b h. q.bounded b (p.bounded b h);
}

pub Rearranges-swap :
    (n : ℕ) (xs : List ℕ) (i j : ℕ)
    → n ≤ length xs
    → i < n
    → j < n
    → i ≢ j
    → Rearranges n xs (swap xs i j)
Rearranges-swap n xs i j len hi hj ne = record {
  same_length = length-swap xs i j pi pj;
  same_count = count-swap xs i j pi pj ne;
  outside = λ k h. swap_other xs i j pi pj k (omega arith) (omega arith);
  bounded = λ b h k l. swap_bounded b h k l;
}
  where
    pi : i < length xs
    pi = omega arith

    pj : j < length xs
    pj = omega arith

    swap_bounded :
        (b : ℕ) → ((k : ℕ) → k < n → at xs k ≤ b) → (k : ℕ) → k < n → at (swap xs i j) k ≤ b
    swap_bounded b h k l = elim (ℕ_discrete k j) [
      | yes e ↦ subst (λ m. at (swap xs i j) m ≤ b) (sym e) (rw (swap_right xs i j pi pj) (h i hi))
      | no kj ↦ elim (ℕ_discrete k i) [
        | yes e ↦
            subst (λ m. at (swap xs i j) m ≤ b) (sym e) (rw (swap_left xs i j pi pj ne) (h j hj))
        | no ki ↦ rw (swap_other xs i j pi pj k ki kj) (h k l)
      ]
    ]

pub Rearranges-le : {m n : ℕ} {xs ys : List ℕ} → m ≤ n → Rearranges m xs ys → Rearranges n xs ys
Rearranges-le {m} {n} {xs} {ys} l p = record {
  same_length = p.same_length;
  same_count = p.same_count;
  outside = λ k h. p.outside k (omega arith);
  bounded = bounded_le;
}
  where
    bounded_le : (b : ℕ) → ((k : ℕ) → k < n → at xs k ≤ b) → (k : ℕ) → k < n → at ys k ≤ b
    bounded_le b h k below = elim (dec_lt k m) [
      | yes in_m ↦ p.bounded b (λ j hj. h j (omega arith)) k in_m
      | no out_m ↦ rw (p.outside k (omega arith)) (h k below)
    ]
