-- ===== src/Environ/Entry.antt =====
-- The loop over `environ` and the association list that the entries `name=value` stand for.
use myapue.Base.{equal, ℕ, suc, ◌+◌, ◌==◌, if◌then◌else◌, true, ◌≡◌, ◌≢◌, ◌∙◌, refl, ap, arith}
use myapue.Base.{subst, Bool-cases, inl, inr}
use myapue.Base.{List, [], ◌∷◌, ◌++◌, length, drop, map, All, Option, none, some}
use myapue.Environ.{equals_sign, strncmp_zero, is_entry, find_value}
use myapue.Environ.Buffer.{IsString}

-- The entry name=value.
abbrev pub entry_of : List ℕ × List ℕ → List ℕ
entry_of (name, value) = name ++ (equals_sign ∷ value)

-- Neither a terminator nor an equals sign.
abbrev pub IsName : List ℕ → Type 0
IsName = All (λ c. c ≢ equals_sign)

abbrev pub IsEnviron : List (List ℕ × List ℕ) → Type 0
IsEnviron = All (λ p. IsName p.0 × IsString p.1)

-- The value of the first pair with a name.
abbrev pub lookup : List ℕ → List (List ℕ × List ℕ) → Option (List ℕ)
lookup name [] = none
lookup name ((n, value) ∷ pairs) =
    let rest = lookup name pairs in if equal name n then some value else rest

is_entry-entry_of :
    (name n value : List ℕ)
    → IsName name
    → IsName n
    → is_entry name (entry_of (n, value)) ≡ equal name n
unfolding is_entry strncmp_zero
is_entry-entry_of [] [] value h k = refl
is_entry-entry_of [] (y ∷ ys) value h k = ground (arith, k.0)
is_entry-entry_of (x ∷ xs) [] value h k = ground (arith, h.0)
is_entry-entry_of (x ∷ xs) (y ∷ ys) value h k =
    let ih = is_entry-entry_of xs ys value h.1 k.1 in
    elim (Bool-cases (x == y)) [ inl same ↦ rw same ih | inr other ↦ rw other refl ]

drop-entry_of :
    (name n value : List ℕ)
    → equal name n ≡ true
    → drop (suc (length name)) (entry_of (n, value)) ≡ value
drop-entry_of [] [] value h = refl
drop-entry_of [] (y ∷ ys) value h = cc
drop-entry_of (x ∷ xs) [] value h = cc
drop-entry_of (x ∷ xs) (y ∷ ys) value h = drop-entry_of xs ys value (ground arith)

-- The loop finds the value that the association list has.
pub find_value-lookup :
    (name : List ℕ) (pairs : List (List ℕ × List ℕ))
    → IsName name
    → IsEnviron pairs
    → find_value name (map entry_of pairs) ≡ lookup name pairs
unfolding find_value
find_value-lookup name [] h k = refl
find_value-lookup name ((n, value) ∷ pairs) h k =
    let ih = find_value-lookup name pairs h k.1 in
    let next : length name + 1 ≡ suc (length name) = omega arith in
    let test = is_entry-entry_of name n value h k.0.0 in
    elim (Bool-cases (equal name n)) [
      | inl same ↦ rw test (
          rw same (
            ap some
              (ap (λ i. drop i (entry_of (n, value))) next ∙ drop-entry_of name n value same)))
      | inr other ↦ rw test (rw other ih)
    ]

-- A value that is found is a string.
pub lookup-IsString :
    (name : List ℕ) (pairs : List (List ℕ × List ℕ)) (value : List ℕ)
    → IsEnviron pairs
    → lookup name pairs ≡ some value
    → IsString value
lookup-IsString name [] value k e = cc
lookup-IsString name ((n, v) ∷ pairs) value k e = elim (Bool-cases (equal name n)) [
  | inl same ↦ let found = rw same at e in let one : v ≡ value = cc in subst IsString one k.0.1
  | inr other ↦ lookup-IsString name pairs value k.1 (rw other at e)
]
