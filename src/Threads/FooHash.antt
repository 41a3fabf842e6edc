-- ===== src/Threads/FooHash.antt =====
-- 11.threads/05_mutex.c: the hash table of reference-counted objects. An id is the number that the
-- cast to unsigned long makes of it, a reference count is an int modulo 2 ^ 32, and NULL is 0.
pub mod Chain
pub mod Walk
pub mod Represents
pub mod Refines
pub mod Release
pub mod Alloc
pub mod Sequences
mod Examples
use myapue.Base.{ℕ, zero, suc, ◌+◌, ◌-◌, ◌%◌, ◌^◌, ◌==◌, if◌then◌else◌, Bool, true, false}
use myapue.Base.{Option, none, some}
use myapue.Threads.Runs.{Run, ok, fault, blocks, spins, then_run, ◌>>=◌, ◌>>◌, pure, write}

abbrev pub hash_number : ℕ
hash_number = 29

-- HASH(id)
abbrev pub hash : ℕ → ℕ
hash id = id % hash_number

-- struct foo; f_lock is whether the mutex is held.
pub record Foo : Type 0 where
  pub f_reference : ℕ
  pub f_lock : Bool
  pub f_id : ℕ
  pub f_next : ℕ

-- The memory, foo_hash, and whether foo_hash_lock is held.
pub record Table : Type 0 where
  pub cells : ℕ → Option Foo
  pub foo_hash : ℕ → ℕ
  pub foo_hash_lock : Bool

abbrev pub M : Type 0 → Type 0
M A = Table → Run Table A

-- *p
pub load : ℕ → M Foo
load p s = elim (s.cells p) [ none ↦ fault | some f ↦ ok f s ]

abbrev pub put : ℕ → Option Foo → M (Unit {0})
put p c s = ok tt (record s { cells = write s.cells p c })

abbrev pub get_head : ℕ → M ℕ
get_head index s = ok (s.foo_hash index) s

abbrev pub set_head : ℕ → ℕ → M (Unit {0})
set_head index p s = ok tt (record s { foo_hash = write s.foo_hash index p })

-- pthread_mutex_lock and pthread_mutex_unlock of foo_hash_lock
pub lock : M (Unit {0})
lock s = if s.foo_hash_lock then blocks else ok tt (record s { foo_hash_lock = true })

pub unlock : M (Unit {0})
unlock s = ok tt (record s { foo_hash_lock = false })

-- The two calls on f_lock around the rest of the initialisation.
pub lock_foo : ℕ → M (Unit {0})
unfolding load
lock_foo p = do
  f ← load p
  (if f.f_lock then (λ s. blocks) else put p (some (record f { f_lock = true })))

pub unlock_foo : ℕ → M (Unit {0})
unfolding load
unlock_foo p = do f ← load p; put p (some (record f { f_lock = false }))

-- The part of foo_alloc under foo_hash_lock, and the rest.
pub publish : ℕ → ℕ → M ℕ
unfolding lock unlock load lock_foo unlock_foo
publish new_foo id = do
  lock
  head ← get_head (hash id)
  f ← load new_foo
  put new_foo (some (record f { f_next = head }))
  set_head (hash id) new_foo
  unlock
  lock_foo new_foo
  unlock_foo new_foo
  pure new_foo

-- `new_foo` and `memory` are what malloc answers, the address or 0 and what lies there; `inits` is
-- whether pthread_mutex_init succeeds.
pub foo_alloc : ℕ → Foo → Bool → ℕ → M ℕ
unfolding load publish
foo_alloc new_foo memory inits id = if new_foo == 0 then pure 0 else (do
  put new_foo (some memory)
  (if inits
      then (do
        f ← load new_foo
        put new_foo (some (record f { f_lock = false; f_id = id; f_reference = 1 }))
        publish new_foo id)
      else (do put new_foo none; pure 0)))

-- A round of the loop over a chain; `again` is the loop at the next object.
pub find_next : (ℕ → M ℕ) → ℕ → ℕ → Foo → M ℕ
find_next again id current_foo f =
    if f.f_id == id
    then (do
      put current_foo (some (record f { f_reference = (f.f_reference + 1) % 2 ^ 32 }))
      pure current_foo)
    else again f.f_next

-- The loop, with fuel.
pub find_from : ℕ → ℕ → ℕ → M ℕ
unfolding load find_next
find_from zero id current_foo s = spins
find_from (suc fuel) id zero s = ok 0 s
find_from (suc fuel) id (suc p) s =
    then_run (load (suc p) s) (find_next (find_from fuel id) id (suc p))

pub foo_find_and_hold : ℕ → ℕ → M ℕ
unfolding lock unlock
foo_find_and_hold fuel id = do
  lock
  head ← get_head (hash id)
  current_foo ← find_from fuel id head
  unlock
  pure current_foo

-- A round of the loop that looks for the object before `fp`, which is then unlinked.
pub unlink_next : (ℕ → M (Unit {0})) → ℕ → ℕ → Foo → M (Unit {0})
unfolding load
unlink_next again fp current_foo c =
    if c.f_next == fp
    then (do f ← load fp; put current_foo (some (record c { f_next = f.f_next })))
    else again c.f_next

pub unlink : ℕ → ℕ → ℕ → M (Unit {0})
unfolding load unlink_next
unlink zero fp current_foo s = spins
unlink (suc fuel) fp current_foo s =
    then_run (load current_foo s) (unlink_next (unlink fuel fp) fp current_foo)

-- The object leaves its chain.
pub take_out : ℕ → ℕ → ℕ → M (Unit {0})
unfolding load unlink
take_out fuel fp index = do
  current_foo ← get_head index
  (if current_foo == fp
      then (do f ← load current_foo; set_head index f.f_next)
      else unlink fuel fp current_foo)

-- The branches on the decremented count.
pub drop_if : Bool → ℕ → ℕ → ℕ → M (Unit {0})
unfolding take_out unlock
drop_if true fuel fp id = do take_out fuel fp (hash id); unlock; put fp none
drop_if false fuel fp id = unlock

pub foo_release : ℕ → ℕ → M (Unit {0})
unfolding lock load drop_if
foo_release fuel fp = do
  lock
  f ← load fp
  let left = (f.f_reference + 2 ^ 32 - 1) % 2 ^ 32
  put fp (some (record f { f_reference = left }))
  drop_if (left == 0) fuel fp f.f_id
