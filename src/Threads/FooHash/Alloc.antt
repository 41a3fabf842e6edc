-- ===== src/Threads/FooHash/Alloc.antt =====
-- foo_alloc against the lists of entries.
use myapue.Base.{
  ℕ, ◌==◌, ◌&&◌, not, ◌≡◌, ap, refl, arith, if◌then◌else◌, Bool, Bool-cases, inl, inr, true, false,
}
use myapue.Base.{◌∷◌, Option, none, some}
use myapue.Threads.FooHash.{Foo, Table, hash, load, foo_alloc}
use myapue.Threads.Runs.{ok, write}
use myapue.Threads.FooHash.Chain.{Entry, has, Chain-frame}
use myapue.Threads.FooHash.Represents.{Buckets, Represents, Represents-write}
use myapue.Threads.FooHash.Refines.{Leaves}

abbrev fresh : ℕ → ℕ → Entry
fresh new_foo id = record { address = new_foo; id = id; references = 1 }

-- The lists after foo_alloc.
abbrev pub allocate : ℕ → Bool → ℕ → Buckets → Buckets
allocate new_foo inits id t =
    if inits && not (new_foo == 0) then write t (hash id) (fresh new_foo id ∷ t (hash id)) else t

no_memory :
    (s : Table) (t : Buckets)
    → Represents s t
    → (memory : Foo) (id : ℕ) → Leaves 0 t (foo_alloc 0 memory true id s)
unfolding foo_alloc
no_memory s t r memory id = (s, refl, r)

module _ (s : Table) (t : Buckets) (r : Represents s t) (new_foo : ℕ) (memory : Foo) (id : ℕ)
    (unused : (j : ℕ) → has new_foo (t j) ≡ false) where
  self : (new_foo == new_foo) ≡ true
  self = ground arith

  other_object : (j b : ℕ) → has b (t j) ≡ true → (b == new_foo) ≡ false
  other_object j b h = elim (Bool-cases (b == new_foo)) [
    | inl same ↦
        let eq : b ≡ new_foo = ground arith in
        let inside : has new_foo (t j) ≡ true = rw eq at h in let out = unused j in cc
    | inr differ ↦ differ
  ]

  gives_back : Leaves 0 t (foo_alloc new_foo memory false id s)
  unfolding foo_alloc
  gives_back = elim (Bool-cases (new_foo == 0)) [
    | inl null ↦ rw null (s, refl, r)
    | inr real ↦ rw real (
      record s { cells = write (write s.cells new_foo (some memory)) new_foo none },
      refl,
      record {
        unlocked = r.unlocked;
        heads = r.heads;
        chains =
            λ j. Chain-frame s.cells _ (t j) (λ b h. rw (other_object j b h) refl) (r.chains j);
        placed = r.placed;
      },
    )
  ]

  -- The objects that the address holds, one after another.
  abbrev initialised : Foo
  initialised = record memory { f_lock = false; f_id = id; f_reference = 1 }

  abbrev linked : Foo
  linked = record initialised { f_next = s.foo_hash (hash id) }

  abbrev final_cells : ℕ → Option Foo
  final_cells =
      let c₁ = write s.cells new_foo (some memory) in
      let c₂ = write c₁ new_foo (some initialised) in
      let c₃ = write c₂ new_foo (some linked) in
      write (write c₃ new_foo (some (record linked { f_lock = true }))) new_foo (some linked)

  publishes :
      (new_foo == 0) ≡ false
      → foo_alloc new_foo memory true id s
        ≡ ok new_foo (record {
          cells = final_cells;
          foo_hash = write s.foo_hash (hash id) new_foo;
          foo_hash_lock = false;
        })
  unfolding foo_alloc
  publishes real =
      rw real (
        rw (self, load)
          (rw (r.unlocked) (rw (self, load) (rw (self, load) (rw (self, load) refl)))))

  succeeds :
      (new_foo == 0) ≡ false
      → Leaves new_foo
          (write t (hash id) (fresh new_foo id ∷ t (hash id)))
          (foo_alloc new_foo memory true id s)
  succeeds real =
      let i : ℕ = hash id in
      (
        _,
        publishes real,
        Represents-write r i (fresh new_foo id ∷ t i) final_cells (write s.foo_hash i new_foo)
            (
              (λ null. let eq : new_foo ≡ 0 = null in ground (arith, real)),
              unused i,
              rw self (ap (λ p. some (record initialised { f_next = p })) (r.heads i)),
              Chain-frame s.cells final_cells (t i) (λ b h. rw (other_object i b h) refl)
                  (r.chains i),
            )
            (refl, r.placed i) (ground arith) (λ j e. rw e refl)
            (λ j e b h. rw (other_object j b h) refl),
      )

-- On a table that represents lists of entries, and where malloc answers NULL or an address of no
-- entry, foo_alloc returns NULL and leaves the lists as they are if malloc or the initialisation
-- of the mutex fails. Else it returns the address, which stands then with one reference at the
-- front of its id's list.
pub foo_alloc-Leaves :
    (s : Table) (t : Buckets)
    → Represents s t
    → (new_foo : ℕ) (memory : Foo) (inits : Bool) (id : ℕ) → ((j : ℕ) → has new_foo (t j) ≡ false)
    → Leaves
        (if inits then new_foo else 0)
        (allocate new_foo inits id t)
        (foo_alloc new_foo memory inits id s)
foo_alloc-Leaves s t r new_foo memory false id unused = gives_back s t r new_foo memory id unused
foo_alloc-Leaves s t r new_foo memory true id unused = elim (Bool-cases (new_foo == 0)) [
  | inl null ↦ let e : new_foo ≡ 0 = ground arith in rw null (rw e (no_memory s t r memory id))
  | inr real ↦ rw real (succeeds s t r new_foo memory id unused real)
]
