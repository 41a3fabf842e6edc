-- ===== src/Threads/FooHash/Walk.antt =====
-- The two loops over a chain, against the lists.
use myapue.Base.{
  ℕ, zero, suc, ◌+◌, ◌%◌, ◌^◌, ◌==◌, ◌≡◌, ◌≢◌, ◌<◌, ◌∙◌, refl, arith, if◌then◌else◌, Bool-cases,
  inl, inr, true, false,
}
use myapue.Base.{List, [], ◌∷◌, Option, some, length}
use myapue.Threads.FooHash.{Foo, Table, load, find_next, find_from, unlink_next, unlink}
use myapue.Threads.Runs.{Run, ok, write}
use myapue.Threads.FooHash.Chain.{Entry, first, has, Chain, Chain-write}

-- What foo_find_and_hold returns, and the list with one reference more.
abbrev pub found : ℕ → List Entry → ℕ
found id [] = 0
found id (e ∷ es) = if e.id == id then e.address else found id es

abbrev pub hold : ℕ → List Entry → List Entry
hold id [] = []
hold id (e ∷ es) =
    if e.id == id
    then record e { references = (e.references + 1) % 2 ^ 32 } ∷ es
    else e ∷ hold id es

abbrev pub erase : ℕ → List Entry → List Entry
erase a [] = []
erase a (e ∷ es) = if e.address == a then es else e ∷ erase a es

pub first-hold : (id : ℕ) (es : List Entry) → first (hold id es) ≡ first es
first-hold id [] = refl
first-hold id (e ∷ es) = ground arith

pub has-hold : (a id : ℕ) (es : List Entry) → has a (hold id es) ≡ has a es
has-hold a id [] = refl
has-hold a id (e ∷ es) = ground (arith, has-hold a id es)

pub has-erase : (a b : ℕ) (es : List Entry) → has a es ≡ false → has a (erase b es) ≡ false
has-erase a b [] h = refl
has-erase a b (e ∷ es) h = ground (arith, has-erase a b es)

pub has-erase_self :
    (cells : ℕ → Option Foo) (a : ℕ) (es : List Entry) → Chain cells es → has a (erase a es) ≡ false
has-erase_self cells a [] c = refl
has-erase_self cells a (e ∷ es) c = elim (Bool-cases (e.address == a)) [
  | inl here ↦ let same : e.address ≡ a = ground arith in rw here (rw same at c.1)
  | inr other ↦ rw (other, other) (has-erase_self cells a es c.3)
]

pub load-some : (p : ℕ) (s : Table) (f : Foo) → s.cells p ≡ some f → load p s ≡ ok f s
unfolding load
load-some p s f h = rw (h, load) refl

-- A run that changes the cells of a chain, and nothing else, into a chain for another list.
abbrev pub Changes : {A : Type 0} → Table → A → List Entry → List Entry → Run Table A → Type 0
Changes s a old new run =
    (cells' : ℕ → Option Foo) × (run ≡ ok a (record s { cells = cells' }))
    × Chain cells' new
    × ((b : ℕ) → has b old ≡ false → cells' b ≡ s.cells b)

find_from-step :
    (fuel id p : ℕ) (s : Table) (f : Foo)
    → p ≢ 0
    → s.cells p ≡ some f
    → find_from (suc fuel) id p s ≡ find_next (find_from fuel id) id p f s
unfolding find_from
find_from-step fuel id zero s f h c = absurd (h refl)
find_from-step fuel id (suc p) s f h c = rw (load-some (suc p) s f c) refl

pub find_from-Changes :
    (fuel id : ℕ) (es : List Entry) (s : Table)
    → length es < fuel
    → Chain s.cells es
    → Changes s (found id es) es (hold id es) (find_from fuel id (first es) s)
unfolding find_next
find_from-Changes zero id es s enough c = absurd (omega arith)
find_from-Changes (suc fuel) id [] s enough c = (s.cells, unfold find_from in refl, tt, λ b h. refl)
find_from-Changes (suc fuel) id (e ∷ es) s enough c =
    let ih = find_from-Changes fuel id es s (omega arith) c.3 in
    elim (Bool-cases (e.id == id)) [
      | inl hit ↦
          let f : Foo = record {
            f_reference = (e.references + 1) % 2 ^ 32;
            f_lock = false;
            f_id = e.id;
            f_next = first es;
          } in
          (
            write s.cells e.address (some f),
            find_from-step fuel id e.address s _ c.0 c.2 ∙ rw hit refl,
            rw hit (c.0, c.1, ground arith, Chain-write s.cells es e.address (some f) c.1 c.3),
            λ b h. ground (arith, h),
          )
      | inr miss ↦ (
        ih.0,
        find_from-step fuel id e.address s _ c.0 c.2 ∙ rw miss ih.1,
        rw miss (
          c.0,
          has-hold e.address id es ∙ c.1,
          ground (arith, ih.3 e.address c.1, c.2, first-hold id es),
          ih.2,
        ),
        λ b h. ih.3 b (ground (arith, h)),
      )
    ]

unlink-step :
    (fuel fp p : ℕ) (s : Table) (f : Foo)
    → s.cells p ≡ some f
    → unlink (suc fuel) fp p s ≡ unlink_next (unlink fuel fp) fp p f s
unfolding unlink
unlink-step fuel fp p s f c = rw (load-some p s f c) refl

pub unlink-Changes :
    (fuel fp : ℕ) (e : Entry) (es : List Entry) (s : Table)
    → length es < fuel
    → has fp es ≡ true
    → Chain s.cells (e ∷ es)
    → Changes s tt (e ∷ es) (e ∷ erase fp es) (unlink fuel fp e.address s)
unfolding unlink_next
unlink-Changes zero fp e es s enough m c = absurd (omega arith)
unlink-Changes (suc fuel) fp e [] s enough m c = cc
unlink-Changes (suc fuel) fp e (f ∷ es) s enough m c = elim (Bool-cases (f.address == fp)) [
  | inl hit ↦
      let same : f.address ≡ fp = ground arith in
      let g : Foo = record {
        f_reference = e.references;
        f_lock = false;
        f_id = e.id;
        f_next = first es;
      } in
      (
        write s.cells e.address (some g),
        unlink-step fuel fp e.address s _ c.2
            ∙ rw hit (rw (← same) (rw (load-some f.address s _ c.3.2) refl)),
        rw hit (
          c.0,
          ground (arith, c.1),
          ground arith,
          Chain-write s.cells es e.address (some g) (ground (arith, c.1)) c.3.3,
        ),
        λ b h. ground (arith, h),
      )
  | inr miss ↦
      let ih = unlink-Changes fuel fp f es s (omega arith) (ground (arith, m)) c.3 in
      (
        ih.0,
        unlink-step fuel fp e.address s _ c.2 ∙ rw miss ih.1,
        rw miss
            (c.0, ground (arith, c.1, has-erase e.address fp es), ih.3 e.address c.1 ∙ c.2, ih.2),
        λ b h. ih.3 b (ground (arith, h)),
      )
]
