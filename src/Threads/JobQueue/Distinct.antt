-- ===== src/Threads/JobQueue/Distinct.antt =====
-- Lists of addresses without repetition.
use myapue.Base.{ℕ, ◌==◌, ◌||◌, ◌≡◌, refl, arith, Bool, Bool-cases, inl, inr, true, false}
use myapue.Base.{List, [], ◌∷◌, ◌++◌}

abbrev pub has : ℕ → List ℕ → Bool
has a [] = false
has a (x ∷ xs) = x == a || has a xs

abbrev pub Distinct : List ℕ → Type 0
Distinct [] = Unit
Distinct (x ∷ xs) = (has x xs ≡ false) × Distinct xs

pub has-append : (a : ℕ) (xs ys : List ℕ) → has a (xs ++ ys) ≡ (has a xs || has a ys)
has-append a [] ys = refl
has-append a (x ∷ xs) ys = ground (arith, has-append a xs ys)

pub Distinct-append_left : (xs ys : List ℕ) → Distinct (xs ++ ys) → Distinct xs
Distinct-append_left [] ys d = tt
Distinct-append_left (x ∷ xs) ys d =
    (ground (arith, d.0, has-append x xs ys), Distinct-append_left xs ys d.1)

pub Distinct-append_right : (xs ys : List ℕ) → Distinct (xs ++ ys) → Distinct ys
Distinct-append_right [] ys d = d
Distinct-append_right (x ∷ xs) ys d = Distinct-append_right xs ys d.1

pub Distinct-apart :
    (a : ℕ) (xs ys : List ℕ) → Distinct (xs ++ ys) → has a xs ≡ true → has a ys ≡ false
Distinct-apart a [] ys d h = cc
Distinct-apart a (x ∷ xs) ys d h = elim (Bool-cases (x == a)) [
  | inl here ↦ ground (arith, d.0, has-append x xs ys, here)
  | inr other ↦ Distinct-apart a xs ys d.1 (ground (arith, h))
]

-- Distinct parts that share nothing make a distinct list.
pub Distinct-append :
    (xs ys : List ℕ)
    → Distinct xs
    → Distinct ys
    → ((a : ℕ) → has a xs ≡ true → has a ys ≡ false)
    → Distinct (xs ++ ys)
Distinct-append [] ys d e apart = e
Distinct-append (x ∷ xs) ys d e apart = (
  ground (arith, has-append x xs ys, d.0, apart x),
  Distinct-append xs ys d.1 e (λ a h. apart a (ground (arith, h))),
)

pub Distinct-apart_right :
    (a : ℕ) (xs ys : List ℕ) → Distinct (xs ++ ys) → has a ys ≡ true → has a xs ≡ false
Distinct-apart_right a xs ys d h = elim (Bool-cases (has a xs)) [
  | inl both ↦ let out = Distinct-apart a xs ys d both in cc
  | inr out ↦ out
]

pub has-middle : (a j : ℕ) (xs ys : List ℕ) → has a (xs ++ (j ∷ ys)) ≡ (j == a || has a (xs ++ ys))
has-middle a j [] ys = refl
has-middle a j (x ∷ xs) ys = ground (arith, has-middle a j xs ys)

pub Distinct-middle :
    (j : ℕ) (xs ys : List ℕ)
    → Distinct (xs ++ ys)
    → has j (xs ++ ys) ≡ false
    → Distinct (xs ++ (j ∷ ys))
Distinct-middle j [] ys d h = (h, d)
Distinct-middle j (x ∷ xs) ys d h =
    (ground (arith, has-middle x j xs ys, d.0), Distinct-middle j xs ys d.1 (ground (arith, h)))

pub Distinct-without : (j : ℕ) (xs ys : List ℕ) → Distinct (xs ++ (j ∷ ys)) → Distinct (xs ++ ys)
Distinct-without j [] ys d = d.1
Distinct-without j (x ∷ xs) ys d =
    (ground (arith, has-middle x j xs ys, d.0), Distinct-without j xs ys d.1)
