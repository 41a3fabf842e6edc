-- ===== src/Threads/FooHash/Chain.antt =====
-- The chains of the table and the lists that they stand for.
use myapue.Base.{ℕ, ◌==◌, ◌||◌, ◌≡◌, ◌≢◌, refl, arith, Bool, Bool-cases, inl, inr, true, false}
use myapue.Base.{List, [], ◌∷◌, Option, some}
use myapue.Threads.FooHash.{Foo}
use myapue.Threads.Runs.{write}

-- An object as the table sees it: its address, its id and its references.
pub record Entry : Type 0 where
  pub address : ℕ
  pub id : ℕ
  pub references : ℕ

abbrev pub first : List Entry → ℕ
first [] = 0
first (e ∷ es) = e.address

abbrev pub has : ℕ → List Entry → Bool
has a [] = false
has a (e ∷ es) = e.address == a || has a es

-- From the first object on, the pointers lead through the entries, and nothing is locked.
abbrev pub Chain : (ℕ → Option Foo) → List Entry → Type 0
Chain cells [] = Unit
Chain cells (e ∷ es) =
    (e.address ≢ 0)
    × (has e.address es ≡ false)
    × (cells e.address
        ≡ some
            (record { f_reference = e.references; f_lock = false; f_id = e.id; f_next = first es }))
    × Chain cells es

-- A chain lives on where its own objects are left alone.
pub Chain-frame :
    (cells cells' : ℕ → Option Foo) (es : List Entry)
    → ((a : ℕ) → has a es ≡ true → cells' a ≡ cells a)
    → Chain cells es
    → Chain cells' es
Chain-frame cells cells' [] same c = tt
Chain-frame cells cells' (e ∷ es) same c = (
  c.0,
  c.1,
  ground (arith, same e.address, c.2),
  Chain-frame cells cells' es (λ a h. same a (ground arith)) c.3,
)

pub Chain-write :
    (cells : ℕ → Option Foo) (es : List Entry) (a : ℕ) (v : Option Foo)
    → has a es ≡ false
    → Chain cells es
    → Chain (write cells a v) es
Chain-write cells es a v out c = Chain-frame cells (write cells a v) es (λ b h. other b h) c
  where
    other : (b : ℕ) → has b es ≡ true → write cells a v b ≡ cells b
    other b h = elim (Bool-cases (b == a)) [
      | inl same ↦ let e : b ≡ a = ground arith in cc
      | inr differ ↦ rw differ refl
    ]
