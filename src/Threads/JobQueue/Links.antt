-- ===== src/Threads/JobQueue/Links.antt =====
-- Chains of links in both directions.
use myapue.Base.{subst, sym, ℕ, ◌==◌, ◌≡◌, ◌∙◌, ◌⊎◌, arith, Bool-cases, inl, inr, true, false}
use myapue.Base.{List, [], ◌∷◌, ◌++◌}
use myapue.Threads.JobQueue.Distinct.{has, Distinct}

-- From a over the addresses xs to b.
abbrev pub Links : (ℕ → ℕ) → (ℕ → ℕ) → ℕ → List ℕ → ℕ → Type 0
Links next prev a [] b = (next a ≡ b) × (prev b ≡ a)
Links next prev a (x ∷ xs) b = (next a ≡ x) × (prev x ≡ a) × Links next prev x xs b

abbrev pub last : ℕ → List ℕ → ℕ
last a [] = a
last a (x ∷ xs) = last x xs

-- The first of a list, or what follows it.
abbrev pub first : List ℕ → ℕ → ℕ
first [] b = b
first (x ∷ xs) b = x

pub has-last : (a : ℕ) (xs : List ℕ) → has (last a xs) (a ∷ xs) ≡ true
has-last a [] = ground arith
has-last a (x ∷ xs) = ground (arith, has-last x xs)

module _ (next prev : ℕ → ℕ) where
  pub prev-last : (a : ℕ) (xs : List ℕ) (b : ℕ) → Links next prev a xs b → prev b ≡ last a xs
  prev-last a [] b l = l.1
  prev-last a (x ∷ xs) b l = prev-last x xs b l.2

  pub next-first : (a : ℕ) (xs : List ℕ) (b : ℕ) → Links next prev a xs b → next a ≡ first xs b
  next-first a [] b l = l.0
  next-first a (x ∷ xs) b l = l.0

  pub Links-split :
      (a : ℕ) (xs : List ℕ) (y : ℕ) (ys : List ℕ) (b : ℕ)
      → Links next prev a (xs ++ (y ∷ ys)) b
      → Links next prev a xs y × Links next prev y ys b
  Links-split a [] y ys b l = ((l.0, l.1), l.2)
  Links-split a (x ∷ xs) y ys b l =
      let (left, right) = Links-split x xs y ys b l.2 in ((l.0, l.1, left), right)

  pub Links-join :
      (a : ℕ) (xs : List ℕ) (y : ℕ) (ys : List ℕ) (b : ℕ)
      → Links next prev a xs y
      → Links next prev y ys b
      → Links next prev a (xs ++ (y ∷ ys)) b
  Links-join a [] y ys b l r = (l.0, l.1, r)
  Links-join a (x ∷ xs) y ys b l r = (l.0, l.1, Links-join x xs y ys b l.2 r)

  module _ (next' prev' : ℕ → ℕ) where
    -- Links stay where the pointers of their ends stay.
    pub Links-frame :
        (a : ℕ) (xs : List ℕ) (b : ℕ)
        → ((p : ℕ) → has p (a ∷ xs) ≡ true → next' p ≡ next p)
        → ((p : ℕ) → has p (xs ++ (b ∷ [])) ≡ true → prev' p ≡ prev p)
        → Links next prev a xs b
        → Links next' prev' a xs b
    Links-frame a [] b n p l = (n a (ground arith) ∙ l.0, p b (ground arith) ∙ l.1)
    Links-frame a (x ∷ xs) b n p l = (
      n a (ground arith) ∙ l.0,
      p x (ground arith) ∙ l.1,
      Links-frame x xs b (λ q h. n q (ground (arith, h))) (λ q h. p q (ground (arith, h))) l.2,
    )

    -- The last link is led elsewhere.
    pub Links-retarget :
        (a : ℕ) (xs : List ℕ) (b c : ℕ)
        → Distinct (a ∷ xs)
        → ((p : ℕ) → has p (a ∷ xs) ≡ true → (p == last a xs) ≡ false → next' p ≡ next p)
        → ((p : ℕ) → has p xs ≡ true → prev' p ≡ prev p)
        → next' (last a xs) ≡ c
        → prev' c ≡ last a xs
        → Links next prev a xs b
        → Links next' prev' a xs c
    Links-retarget a [] b c d n p to from l = (to, from)
    Links-retarget a (x ∷ xs) b c d n p to from l = (
      n a (ground arith) (differs (Bool-cases (a == last x xs))) ∙ l.0,
      p x (ground arith) ∙ l.1,
      Links-retarget x xs b c d.1 (λ q h e. n q (ground (arith, h)) e)
          (λ q h. p q (ground (arith, h))) to from l.2,
    )
      where
        differs : ((a == last x xs) ≡ true) ⊎ ((a == last x xs) ≡ false) → (a == last x xs) ≡ false
        differs (inl same) =
            let e : a ≡ last x xs = ground arith in
            let inside : has a (x ∷ xs) ≡ true =
              subst (λ p. has p (x ∷ xs) ≡ true) (sym e) (has-last x xs) in
            cc (d.0)
        differs (inr other) = other
