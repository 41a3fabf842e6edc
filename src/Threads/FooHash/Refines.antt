-- ===== src/Threads/FooHash/Refines.antt =====
-- The operations of the table implement those on lists of entries.
use myapue.Base.{ℕ, ◌==◌, ◌≡◌, ◌<◌, ◌∙◌, sym, refl, Bool-cases, inl, inr, true, false}
use myapue.Base.{List, [], ◌∷◌, length}
use myapue.Threads.FooHash.{Table, hash, foo_find_and_hold}
use myapue.Threads.Runs.{Run, ok, write}
use myapue.Threads.FooHash.Chain.{Entry}
use myapue.Threads.FooHash.Walk.{found, hold, first-hold, find_from-Changes}
use myapue.Threads.FooHash.Represents.{Buckets, Placed, Represents, Represents-write, outside}

-- A run returns `a` and leaves a table that represents `t`.
abbrev pub Leaves : {A : Type 0} → A → Buckets → Run Table A → Type 0
Leaves a t run = (s : Table) × (run ≡ ok a s) × Represents s t

Placed-hold : (i id : ℕ) (es : List Entry) → Placed i es → Placed i (hold id es)
Placed-hold i id [] p = tt
Placed-hold i id (e ∷ es) p = elim (Bool-cases (e.id == id)) [
  | inl hit ↦ rw hit p
  | inr miss ↦ rw miss (p.0, Placed-hold i id es p.1)
]

-- On a table that represents lists of entries, with enough fuel for the chain of the id,
-- foo_find_and_hold returns the address of the first entry with the id, or NULL where there is
-- none; the table then represents the lists with one more reference, modulo 2 ^ 32, of that entry,
-- and the mutex is free again.
pub foo_find_and_hold-Leaves :
    (s : Table) (t : Buckets)
    → Represents s t
    → (fuel id : ℕ) → length (t (hash id)) < fuel
    → Leaves
        (found id (t (hash id)))
        (write t (hash id) (hold id (t (hash id))))
        (foo_find_and_hold fuel id s)
unfolding foo_find_and_hold
foo_find_and_hold-Leaves s t r fuel id enough =
    let i : ℕ = hash id in
    let locked : Table = record s { foo_hash_lock = true } in
    let c = find_from-Changes fuel id (t i) locked enough (r.chains i) in
    (
      record { cells = c.0; foo_hash = s.foo_hash; foo_hash_lock = false },
      rw (r.unlocked) (rw (r.heads i) (rw c.1 refl)),
      Represents-write r i (hold id (t i)) c.0 s.foo_hash c.2 (Placed-hold i id (t i) (r.placed i))
          (r.heads i ∙ sym (first-hold id (t i))) (λ j e. refl)
          (λ j e b h. c.3 b (outside r i j b e h)),
    )
