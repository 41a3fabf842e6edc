-- ===== src/Threads/FooHash/Release.antt =====
-- foo_release against the lists of entries.
use myapue.Base.{
  ℕ, ◌+◌, ◌-◌, ◌%◌, ◌^◌, ◌==◌, ◌≡◌, ◌<◌, ◌∙◌, sym, ap, refl, arith, if◌then◌else◌, Bool-cases, inl,
  inr, true, false, subst,
}
use myapue.Base.{List, [], ◌∷◌, Option, none, some, length}
use myapue.Threads.FooHash.{Foo, Table, hash, take_out, drop_if, foo_release}
use myapue.Threads.Runs.{Run, ok, write}
use myapue.Threads.FooHash.Chain.{Entry, first, has, Chain, Chain-write}
use myapue.Threads.FooHash.Walk.{erase, has-erase_self, load-some, unlink-Changes}
use myapue.Threads.FooHash.Represents.{Buckets, Placed, Represents, Represents-write, outside}
use myapue.Threads.FooHash.Refines.{Leaves}

abbrev pub references_of : ℕ → List Entry → ℕ
references_of a [] = 0
references_of a (e ∷ es) = if e.address == a then e.references else references_of a es

abbrev pub set_references : ℕ → ℕ → List Entry → List Entry
set_references a n [] = []
set_references a n (e ∷ es) =
    if e.address == a then record e { references = n } ∷ es else e ∷ set_references a n es

-- One reference less, modulo 2 ^ 32; the entry goes with its last one.
abbrev pub leave : ℕ → List Entry → List Entry
leave a es =
    let left = (references_of a es + 2 ^ 32 - 1) % 2 ^ 32 in
    if left == 0 then erase a es else set_references a left es

first-set_references : (a n : ℕ) (es : List Entry) → first (set_references a n es) ≡ first es
first-set_references a n [] = refl
first-set_references a n (e ∷ es) = ground arith

has-set_references : (b a n : ℕ) (es : List Entry) → has b (set_references a n es) ≡ has b es
has-set_references b a n [] = refl
has-set_references b a n (e ∷ es) = ground (arith, has-set_references b a n es)

erase-set_references : (a n : ℕ) (es : List Entry) → erase a (set_references a n es) ≡ erase a es
erase-set_references a n [] = refl
erase-set_references a n (e ∷ es) = elim (Bool-cases (e.address == a)) [
  | inl here ↦ rw (here, here) refl
  | inr other ↦ rw (other, other) (ap (◌∷◌ e) (erase-set_references a n es))
]

length-set_references : (a n : ℕ) (es : List Entry) → length (set_references a n es) ≡ length es
length-set_references a n [] = refl
length-set_references a n (e ∷ es) = ground (arith, length-set_references a n es)

Placed-set_references :
    (i a n : ℕ) (es : List Entry) → Placed i es → Placed i (set_references a n es)
Placed-set_references i a n [] p = tt
Placed-set_references i a n (e ∷ es) p = elim (Bool-cases (e.address == a)) [
  | inl here ↦ rw here p
  | inr other ↦ rw other (p.0, Placed-set_references i a n es p.1)
]

Placed-erase : (i a : ℕ) (es : List Entry) → Placed i es → Placed i (erase a es)
Placed-erase i a [] p = tt
Placed-erase i a (e ∷ es) p = elim (Bool-cases (e.address == a)) [
  | inl here ↦ rw here p.1
  | inr other ↦ rw other (p.0, Placed-erase i a es p.1)
]

-- The object at an address of a chain.
Chain-object :
    (cells : ℕ → Option Foo) (i a : ℕ) (es : List Entry)
    → Chain cells es
    → Placed i es
    → has a es ≡ true
    → (f : Foo) × (cells a ≡ some f) × (f.f_reference ≡ references_of a es) × (hash f.f_id ≡ i)
Chain-object cells i a [] c p h = cc
Chain-object cells i a (e ∷ es) c p h = elim (Bool-cases (e.address == a)) [
  | inl here ↦
      let same : e.address ≡ a = ground arith in (_, ap cells (sym same) ∙ c.2, rw here refl, p.0)
  | inr other ↦
      let (f, f_at, count, bucket) = Chain-object cells i a es c.3 p.1 (ground (arith, h)) in
      (f, f_at, rw other count, bucket)
]

Chain-set_references :
    (cells : ℕ → Option Foo) (a n : ℕ) (f : Foo) (es : List Entry)
    → cells a ≡ some f
    → Chain cells es
    → Chain (write cells a (some (record f { f_reference = n }))) (set_references a n es)
Chain-set_references cells a n f [] h c = tt
Chain-set_references cells a n f (e ∷ es) h c = elim (Bool-cases (e.address == a)) [
  | inl here ↦
      let same : e.address ≡ a = ground arith in
      let out : has a es ≡ false = rw same at c.1 in
      rw here (c.0, c.1, ground (arith, c.2), Chain-write cells es a _ out c.3)
  | inr other ↦ rw other (
    c.0,
    has-set_references e.address a n es ∙ c.1,
    ground (arith, c.2, first-set_references a n es),
    Chain-set_references cells a n f es h c.3,
  )
]

-- A run that takes an object out of a chain, whose head may change.
abbrev Takes : Table → ℕ → List Entry → List Entry → Run Table (Unit {0}) → Type 0
Takes s i old new run =
    (cells' : ℕ → Option Foo) × (heads' : ℕ → ℕ) × (run
      ≡ ok tt (record s { cells = cells'; foo_hash = heads' }))
    × Chain cells' new
    × (heads' i ≡ first new)
    × ((j : ℕ) → (j == i) ≡ false → heads' j ≡ s.foo_hash j)
    × ((b : ℕ) → has b old ≡ false → cells' b ≡ s.cells b)

take_out-Takes :
    (fuel fp i : ℕ) (es : List Entry) (s : Table)
    → length es < fuel
    → has fp es ≡ true
    → Chain s.cells es
    → s.foo_hash i ≡ first es
    → Takes s i es (erase fp es) (take_out fuel fp i s)
unfolding take_out
take_out-Takes fuel fp i [] s enough m c head = cc
take_out-Takes fuel fp i (e ∷ es) s enough m c head = elim (Bool-cases (e.address == fp)) [
  | inl here ↦ (
    s.cells,
    write s.foo_hash i (first es),
    rw head (rw here (rw (load-some e.address s _ c.2) refl)),
    rw here c.3,
    rw here (ground arith),
    λ j o. rw o refl,
    λ b h. refl,
  )
  | inr other ↦
      let u = unlink-Changes fuel fp e es s (omega arith) (ground (arith, m)) c in
      (u.0, s.foo_hash, rw head (rw other u.1), rw other u.2, rw other head, λ j o. refl, u.3)
]

module _ (s : Table) (t : Buckets) (r : Represents s t) (fuel fp i : ℕ)
    (enough : length (t i) < fuel) (inside : has fp (t i) ≡ true) where
  -- An object of another bucket is another object.
  other_object : (j : ℕ) → (j == i) ≡ false → (b : ℕ) → has b (t j) ≡ true → (b == fp) ≡ false
  other_object j e b h = elim (Bool-cases (b == fp)) [
    | inl same ↦
        let eq : b ≡ fp = ground arith in
        let out : has fp (t i) ≡ false = rw eq at (outside r i j b e h) in cc
    | inr differ ↦ differ
  ]

  module _ (f : Foo) (f_at : s.cells fp ≡ some f) (count : f.f_reference ≡ references_of fp (t i))
      (bucket : hash f.f_id ≡ i) (left : ℕ) where
    abbrev lowered : ℕ → Option Foo
    lowered = write s.cells fp (some (record f { f_reference = left }))

    abbrev s₂ : Table
    s₂ = record { cells = lowered; foo_hash = s.foo_hash; foo_hash_lock = true }

    keeps : Leaves tt (write t i (set_references fp left (t i))) (drop_if false fuel fp f.f_id s₂)
    unfolding drop_if
    keeps = (
      record s₂ { foo_hash_lock = false },
      refl,
      Represents-write r i (set_references fp left (t i)) lowered s.foo_hash
          (Chain-set_references s.cells fp left f (t i) f_at (r.chains i))
          (Placed-set_references i fp left (t i) (r.placed i))
          (r.heads i ∙ sym (first-set_references fp left (t i))) (λ j e. refl)
          (λ j e b h. rw (other_object j e b h) refl),
    )

    drops : Leaves tt (write t i (erase fp (t i))) (drop_if true fuel fp f.f_id s₂)
    unfolding drop_if
    drops =
        let new : List Entry = set_references fp left (t i) in
        let chain : Chain lowered new =
          Chain-set_references s.cells fp left f (t i) f_at (r.chains i) in
        let k =
          take_out-Takes fuel fp i new s₂
            (omega (arith, ap (λ (n : ℕ). n) (length-set_references fp left (t i))))
            (has-set_references fp fp left (t i) ∙ inside) chain
            (r.heads i ∙ sym (first-set_references fp left (t i))) in
        let gone : erase fp new ≡ erase fp (t i) = erase-set_references fp left (t i) in
        (
          record { cells = write k.0 fp none; foo_hash = k.1; foo_hash_lock = false },
          rw bucket (rw (k.2) refl),
          Represents-write r i (erase fp (t i)) (write k.0 fp none) k.1
              (Chain-write k.0 (erase fp (t i)) fp none
                (has-erase_self s.cells fp (t i) (r.chains i)) (subst (Chain k.0) gone k.3))
              (Placed-erase i fp (t i) (r.placed i)) (k.4 ∙ ap first gone) k.5
              (λ j e b h. rw (other_object j e b h) (
                k.6 b (has-set_references b fp left (t i) ∙ outside r i j b e h)
                ∙ (rw (other_object j e b h) refl))),
        )

  release-Leaves : Leaves tt (write t i (leave fp (t i))) (foo_release fuel fp s)
  unfolding foo_release
  release-Leaves =
      let (f, f_at, count, bucket) =
        Chain-object s.cells i fp (t i) (r.chains i) (r.placed i) inside in
      let left : ℕ = (references_of fp (t i) + 2 ^ 32 - 1) % 2 ^ 32 in
      rw (r.unlocked) (
        rw (load-some fp (record s { foo_hash_lock = true }) f f_at) (
          rw count (elim (Bool-cases (left == 0)) [
            | inl last ↦ rw last (drops f f_at count bucket left)
            | inr more ↦ rw more (keeps f f_at count bucket left)
          ])))

-- On a table that represents lists of entries, foo_release of an object of some list, with enough
-- fuel for its chain, returns. The table then represents the lists with one reference less, modulo
-- 2 ^ 32, of that object, which leaves its list when none is left; no other list changes, and the
-- mutex is free again.
pub foo_release-Leaves :
    (s : Table) (t : Buckets)
    → Represents s t
    → (fuel fp i : ℕ) → length (t i) < fuel
    → has fp (t i) ≡ true
    → Leaves tt (write t i (leave fp (t i))) (foo_release fuel fp s)
foo_release-Leaves s t r fuel fp i enough inside = release-Leaves s t r fuel fp i enough inside
