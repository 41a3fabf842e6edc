-- ===== src/Threads/Messages/Total.antt =====
-- Sums over the threads.
use myapue.Base.{ℕ, zero, suc, ◌+◌, ◌<◌, ◌==◌, ◌≡◌, refl, ap, arith, Bool-cases, inl, inr, false}
use myapue.Threads.Runs.{write}

pub total : ℕ → (ℕ → ℕ) → ℕ
total zero f = 0
total (suc n) f = f n + total n f

pub total-ext : (n : ℕ) (f g : ℕ → ℕ) → ((i : ℕ) → f i ≡ g i) → total n f ≡ total n g
unfolding total
total-ext zero f g h = refl
total-ext (suc n) f g h = omega (arith, h n, total-ext n f g h)

pub total-zero : (n : ℕ) → total n (λ i. 0) ≡ 0
unfolding total
total-zero zero = refl
total-zero (suc n) = omega (arith, total-zero n)

module _ {C : Type 0} (weight : C → ℕ) (c : ℕ → C) (i : ℕ) (v : C) where
  outside :
      (n : ℕ) → n < suc i → total n (λ j. weight (write c i v j)) ≡ total n (λ j. weight (c j))
  unfolding total
  outside zero h = refl
  outside (suc n) h =
      let other : (n == i) ≡ false = ground arith in
      rw other (omega (arith, outside n (omega arith)))

  -- One thread moves on.
  pub total-write :
      (n : ℕ)
      → i < n
      → total n (λ j. weight (write c i v j)) + weight (c i)
        ≡ total n (λ j. weight (c j)) + weight v
  unfolding total
  total-write zero h = absurd (omega arith)
  total-write (suc n) h = elim (Bool-cases (n == i)) [
    | inl same ↦
        let e : n ≡ i = ground arith in
        rw same (omega (arith, outside n (omega arith), ap (λ j. weight (c j)) e))
    | inr other ↦ let ne : i < n = ground arith in rw other (omega (arith, total-write n ne))
  ]

-- A sum that is not 0 has a part that is not.
pub total-pos : (n : ℕ) (f : ℕ → ℕ) → 0 < total n f → (i : ℕ) × (i < n) × (0 < f i)
unfolding total
total-pos zero f h = absurd (omega arith)
total-pos (suc n) f h = elim (Bool-cases (f n == 0)) [
  | inl none ↦ let (i, lt, pos) = total-pos n f (ground (arith, h)) in (i, omega (arith, lt), pos)
  | inr some ↦ (n, omega arith, ground arith)
]

pub total-eq_below : (n : ℕ) (f g : ℕ → ℕ) → ((i : ℕ) → i < n → f i ≡ g i) → total n f ≡ total n g
unfolding total
total-eq_below zero f g h = refl
total-eq_below (suc n) f g h =
    omega (arith, h n (omega arith), total-eq_below n f g (λ i lt. h i (omega arith)))
