-- ===== src/Threads/FooHash/Sequences.antt =====
-- Any sequence of operations on the table, against the lists of entries.
use myapue.Base.{ℕ, ◌≡◌, ◌<◌, refl, if◌then◌else◌, Bool, true, false}
use myapue.Base.{List, [], ◌∷◌, length}
use myapue.Threads.FooHash.{Foo, Table, M, hash, foo_alloc, foo_find_and_hold, foo_release}
use myapue.Threads.Runs.{◌>>=◌, ◌>>◌, pure, write}
use myapue.Threads.FooHash.Chain.{has}
use myapue.Threads.FooHash.Walk.{found, hold}
use myapue.Threads.FooHash.Represents.{Buckets, Represents}
use myapue.Threads.FooHash.Refines.{Leaves, foo_find_and_hold-Leaves}
use myapue.Threads.FooHash.Release.{leave, foo_release-Leaves}
use myapue.Threads.FooHash.Alloc.{allocate, foo_alloc-Leaves}

-- A call, with what malloc and pthread_mutex_init answer in it.
pub data Operation : Type 0 where
  alloc : (new_foo : ℕ) (memory : Foo) (inits : Bool) (id : ℕ) → Operation
  find_and_hold : (id : ℕ) → Operation
  release : (fp : ℕ) → Operation

abbrev pub perform : ℕ → Operation → M ℕ
perform fuel (alloc new_foo memory inits id) = foo_alloc new_foo memory inits id
perform fuel (find_and_hold id) = foo_find_and_hold fuel id
perform fuel (release fp) = do foo_release fuel fp; pure 0

abbrev pub perform_all : ℕ → List Operation → M (List ℕ)
perform_all fuel [] = pure []
perform_all fuel (c ∷ cs) = do a ← perform fuel c; results ← perform_all fuel cs; pure (a ∷ results)

-- What a call does to the lists, and its result: malloc answers no address that is in use, only an
-- object of the table is released, and a chain has fewer objects than there is fuel.
pub data Does (fuel : ℕ) (t : Buckets) : Operation → ℕ → Buckets → Type 0 where
  allocs :
      (new_foo : ℕ) (memory : Foo) (inits : Bool) (id : ℕ)
      → ((j : ℕ) → has new_foo (t j) ≡ false)
      → Does fuel t
          (alloc new_foo memory inits id)
          (if inits then new_foo else 0)
          (allocate new_foo inits id t)
  finds :
      (id : ℕ)
      → length (t (hash id)) < fuel
      → Does fuel t
          (find_and_hold id)
          (found id (t (hash id)))
          (write t (hash id) (hold id (t (hash id))))
  releases :
      (fp i : ℕ)
      → length (t i) < fuel
      → has fp (t i) ≡ true
      → Does fuel t (release fp) 0 (write t i (leave fp (t i)))

pub data DoesAll (fuel : ℕ) : Buckets → List Operation → List ℕ → Buckets → Type 0 where
  nothing : {t : Buckets} → DoesAll fuel t [] [] t
  next :
      {c : Operation} {a : ℕ} {t u : Buckets} {cs : List Operation} {results : List ℕ} {v : Buckets}
      → Does fuel t c a u
      → DoesAll fuel u cs results v
      → DoesAll fuel t (c ∷ cs) (a ∷ results) v

perform-Leaves :
    {s : Table} {t u : Buckets} {fuel a : ℕ} {c : Operation}
    → Represents s t
    → Does fuel t c a u
    → Leaves a u (perform fuel c s)
perform-Leaves {s} {t} r (allocs new_foo memory inits id unused) =
    foo_alloc-Leaves s t r new_foo memory inits id unused
perform-Leaves {s} {t} {fuel = fuel} r (finds id enough) =
    foo_find_and_hold-Leaves s t r fuel id enough
perform-Leaves {s} {t} {fuel = fuel} r (releases fp i enough inside) =
    let (s', ran, r') = foo_release-Leaves s t r fuel fp i enough inside in (s', rw ran refl, r')

-- The table refines the lists of entries: where a sequence of calls of foo_alloc,
-- foo_find_and_hold and foo_release takes lists `t` with answers `results` to lists `u`, the code
-- performs it on any table that represents `t` without a fault, a deadlock or an endless loop,
-- with the same results, and leaves a table that represents `u`. On the lists, an allocation adds
-- an entry with one reference in front, a search adds a reference to the first entry with the id,
-- and a release takes one away, and the entry with the last.
pub perform_all-Leaves :
    (fuel : ℕ) {t u : Buckets} {cs : List Operation} {results : List ℕ}
    → DoesAll fuel t cs results u
    → (s : Table) → Represents s t
    → Leaves results u (perform_all fuel cs s)
perform_all-Leaves fuel nothing s r = (s, refl, r)
perform_all-Leaves fuel (next d ds) s r =
    let (s₁, ran₁, r₁) = perform-Leaves r d in
    let (s₂, ran₂, r₂) = perform_all-Leaves fuel ds s₁ r₁ in (s₂, rw ran₁ (rw ran₂ refl), r₂)
