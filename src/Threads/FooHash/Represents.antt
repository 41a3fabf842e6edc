-- ===== src/Threads/FooHash/Represents.antt =====
-- The abstract table, a list of entries for each hash value, and what it is to represent one.
use myapue.Base.{ℕ, ◌==◌, ◌≡◌, ◌∙◌, sym, ap, refl, arith, Bool-cases, inl, inr, true, false, subst}
use myapue.Base.{List, [], ◌∷◌, Option, some}
use myapue.Threads.FooHash.{Foo, Table, hash}
use myapue.Threads.Runs.{write}
use myapue.Threads.FooHash.Chain.{Entry, first, has, Chain, Chain-frame}

abbrev pub Buckets : Type 0
Buckets = ℕ → List Entry

abbrev pub Placed : ℕ → List Entry → Type 0
Placed i [] = Unit
Placed i (e ∷ es) = (hash e.id ≡ i) × Placed i es

-- The mutex is free, each head starts the chain of its bucket, and ids stand in their buckets.
pub record Represents (s : Table) (t : Buckets) : Type 0 where
  pub unlocked : s.foo_hash_lock ≡ false
  pub heads : (i : ℕ) → s.foo_hash i ≡ first (t i)
  pub chains : (i : ℕ) → Chain s.cells (t i)
  pub placed : (i : ℕ) → Placed i (t i)

-- An address of a chain holds an object that hashes to the chain's bucket.
pub Chain-holds :
    (cells : ℕ → Option Foo) (i a : ℕ) (es : List Entry)
    → Chain cells es
    → Placed i es
    → has a es ≡ true
    → (f : Foo) × (cells a ≡ some f) × (hash f.f_id ≡ i)
Chain-holds cells i a [] c p h = cc
Chain-holds cells i a (e ∷ es) c p h = elim (Bool-cases (e.address == a)) [
  | inl here ↦ let same : e.address ≡ a = ground arith in (_, ap cells (sym same) ∙ c.2, p.0)
  | inr other ↦ Chain-holds cells i a es c.3 p.1 (ground (arith, h))
]

-- A run that replaces one bucket, and leaves the objects of the others alone.
pub Represents-write :
    {s : Table} {t : Buckets}
    → Represents s t
    → (i : ℕ) (new : List Entry) (cells' : ℕ → Option Foo) (heads' : ℕ → ℕ) → Chain cells' new
    → Placed i new
    → heads' i ≡ first new
    → ((j : ℕ) → (j == i) ≡ false → heads' j ≡ s.foo_hash j)
    → ((j : ℕ) → (j == i) ≡ false → (b : ℕ) → has b (t j) ≡ true → cells' b ≡ s.cells b)
    → Represents
        (record { cells = cells'; foo_hash = heads'; foo_hash_lock = false })
        (write t i new)
Represents-write {s} {t} r i new cells' heads' chain place head other_heads others = record {
  unlocked = refl;
  heads = λ j.
      split j (λ es. heads' j ≡ first es) (λ e. let same : j ≡ i = ground arith in rw same head)
        (λ e. other_heads j e ∙ r.heads j);
  chains = λ j.
      split j (λ es. Chain cells' es) (λ e. chain)
        (λ e. Chain-frame s.cells cells' (t j) (others j e) (r.chains j));
  placed = λ j.
      split j (λ es. Placed j es) (λ e. let same : j ≡ i = ground arith in rw same place)
        (λ e. r.placed j);
}
  where
    split :
        (j : ℕ) (P : List Entry → Type 0)
        → ((j == i) ≡ true → P new)
        → ((j == i) ≡ false → P (t j))
        → P (write t i new j)
    split j P at_i elsewhere = elim (Bool-cases (j == i)) [
      | inl e ↦ subst P (rw e refl) (at_i e)
      | inr e ↦ subst P (rw e refl) (elsewhere e)
    ]

-- No address stands in two buckets.
pub apart :
    {s : Table} {t : Buckets}
    → Represents s t
    → (i j a : ℕ) → has a (t i) ≡ true
    → has a (t j) ≡ true
    → i ≡ j
apart {s} {t} r i j a h k =
    let (f, f_at, f_hash) = Chain-holds s.cells i a (t i) (r.chains i) (r.placed i) h in
    let (g, g_at, g_hash) = Chain-holds s.cells j a (t j) (r.chains j) (r.placed j) k in
    let same : f ≡ g = ground arith in sym f_hash ∙ ap (λ (x : Foo). hash x.f_id) same ∙ g_hash

pub outside :
    {s : Table} {t : Buckets}
    → Represents s t
    → (i j a : ℕ) → (j == i) ≡ false
    → has a (t j) ≡ true
    → has a (t i) ≡ false
outside {s} {t} r i j a e h = elim (Bool-cases (has a (t i))) [
  | inl both ↦ let same : j ≡ i = apart r j i a h both in absurd (ground arith)
  | inr out ↦ out
]
