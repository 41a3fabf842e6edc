-- ===== src/Threads/FooHash/Examples.antt =====
-- The theorem about the hash table at a concrete sequence of calls.
use myapue.Base.{◌≡◌, refl, arith, true, false}
use myapue.Base.{List, [], ◌∷◌, none}
use myapue.Threads.FooHash.{Foo, Table}
use myapue.Threads.Runs.{write}
use myapue.Threads.FooHash.Represents.{Buckets, Represents}
use myapue.Threads.FooHash.Refines.{Leaves}
use myapue.Threads.FooHash.Walk.{hold}
use myapue.Threads.FooHash.Release.{leave}
use myapue.Threads.FooHash.Alloc.{allocate}
use myapue.Threads.FooHash.Sequences.{
  Operation, alloc, find_and_hold, release, perform_all, DoesAll, nothing, next, allocs, finds,
  releases, perform_all-Leaves,
}

abbrev empty : Table
empty = record { cells = λ a. none; foo_hash = λ i. 0; foo_hash_lock = false }

abbrev no_entries : Buckets
no_entries i = []

empty-Represents : Represents empty no_entries
empty-Represents = record { unlocked = refl; heads = λ i. refl; chains = λ i. tt; placed = λ i. tt }

abbrev junk : Foo
junk = record { f_reference = 77; f_lock = true; f_id = 5; f_next = 9 }

-- Both ids hash to 3; one object is released twice, and is gone.
abbrev calls : List Operation
calls =
    alloc 100 junk true 3
    ∷ alloc 200 junk true 32
    ∷ find_and_hold 3
    ∷ release 100
    ∷ release 100
    ∷ find_and_hold 3
    ∷ []

abbrev t₁ : Buckets
t₁ = allocate 100 true 3 no_entries

abbrev t₂ : Buckets
t₂ = allocate 200 true 32 t₁

abbrev t₃ : Buckets
t₃ = write t₂ 3 (hold 3 (t₂ 3))

abbrev t₄ : Buckets
t₄ = write t₃ 3 (leave 100 (t₃ 3))

abbrev t₅ : Buckets
t₅ = write t₄ 3 (leave 100 (t₄ 3))

-- Only the second object is left.
last_bucket : t₅ 3 ≡ record { address = 200; id = 32; references = 1 } ∷ []
last_bucket = refl

calls-DoesAll :
    DoesAll 5 no_entries calls (100 ∷ 200 ∷ 100 ∷ 0 ∷ 0 ∷ 0 ∷ []) (write t₅ 3 (hold 3 (t₅ 3)))
calls-DoesAll = next (allocs 100 junk true 3 (λ j. refl)) (
    next (allocs 200 junk true 32 (λ j. ground arith)) (
      next (finds 3 (omega arith)) (
        next (releases 100 3 (omega arith) refl)
          (next (releases 100 3 (omega arith) refl) (next (finds 3 (omega arith)) nothing)))))

perform_all-Leaves_example :
    Leaves
      (100 ∷ 200 ∷ 100 ∷ 0 ∷ 0 ∷ 0 ∷ [])
      (write t₅ 3 (hold 3 (t₅ 3)))
      (perform_all 5 calls empty)
perform_all-Leaves_example = perform_all-Leaves 5 calls-DoesAll empty empty-Represents
