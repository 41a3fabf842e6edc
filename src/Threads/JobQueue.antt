-- ===== src/Threads/JobQueue.antt =====
-- 11.threads/08_rwlock.c: the queue of jobs, a doubly linked list between two sentinels, with a
-- read-write lock. Each field of struct job is a map from addresses, and NULL is 0.
pub mod Links
pub mod Distinct
pub mod Holds
pub mod Relink
pub mod Operations
pub mod Sequences
pub mod Find
mod Examples
use myapue.Base.{ℕ, zero, suc, ◌+◌, ◌-◌, ◌==◌, ◌||◌, not, if◌then◌else◌, Bool, true, false}
use myapue.Threads.Runs.{Run, ok, fault, blocks, spins, then_run, ◌>>=◌, ◌>>◌, pure, write}

-- The fields of the jobs, which addresses hold one, struct job_queue, and its lock: how many
-- threads read, and whether one writes.
pub record Queue : Type 0 where
  pub prev : ℕ → ℕ
  pub next : ℕ → ℕ
  pub job_tid : ℕ → ℕ
  pub live : ℕ → Bool
  pub head : ℕ
  pub tail : ℕ
  pub readers : ℕ
  pub writer : Bool

abbrev pub M : Type 0 → Type 0
M A = Queue → Run Queue A

-- An access to the job at an address.
abbrev pub at_job : {A : Type 0} → ℕ → M A → M A
at_job p m s = if s.live p then m s else fault

abbrev pub get_next : ℕ → M ℕ
get_next p = at_job p (λ s. ok (s.next p) s)

abbrev pub get_prev : ℕ → M ℕ
get_prev p = at_job p (λ s. ok (s.prev p) s)

abbrev pub set_next : ℕ → ℕ → M (Unit {0})
set_next p q = at_job p (λ s. ok tt (record s { next = write s.next p q }))

abbrev pub set_prev : ℕ → ℕ → M (Unit {0})
set_prev p q = at_job p (λ s. ok tt (record s { prev = write s.prev p q }))

abbrev pub head_of : M ℕ
head_of s = ok s.head s

abbrev pub tail_of : M ℕ
tail_of s = ok s.tail s

-- pthread_rwlock_wrlock, pthread_rwlock_rdlock and pthread_rwlock_unlock
abbrev pub wrlock : M (Unit {0})
wrlock s = if s.writer || not (s.readers == 0) then blocks else ok tt (record s { writer = true })

abbrev pub rdlock : M (Unit {0})
rdlock s = if s.writer then blocks else ok tt (record s { readers = s.readers + 1 })

abbrev pub unlock : M (Unit {0})
unlock s =
    ok tt (if s.writer then record s { writer = false } else record s { readers = s.readers - 1 })

-- What malloc answers holds a job from then on.
abbrev pub allocate : ℕ → M (Unit {0})
allocate p s = ok tt (if p == 0 then s else record s { live = write s.live p true })

abbrev pub free : ℕ → M (Unit {0})
free p s =
    if p == 0
    then ok tt s
    else if s.live p
    then ok tt (record s { live = write s.live p false })
    else fault

-- pthread_rwlock_init, where it answers 0
abbrev pub init_lock : ℕ → M (Unit {0})
init_lock res s = ok tt (if res == 0 then record s { readers = 0; writer = false } else s)

-- `head` and `tail` are what malloc answers, and `res` is the answer of pthread_rwlock_init.
pub job_queue_init : ℕ → ℕ → ℕ → M ℕ
job_queue_init head tail res = do
  allocate head
  allocate tail
  set_prev head 0
  set_next tail 0
  set_next head tail
  set_prev tail head
  init_lock res
  pure res

-- `res` is the answer of pthread_rwlock_destroy.
pub job_queue_destroy : ℕ → M ℕ
job_queue_destroy res = do
  wrlock
  h ← head_of
  free h
  (λ s. ok tt (record s { head = 0 }))
  t ← tail_of
  free t
  (λ s. ok tt (record s { tail = 0 }))
  unlock
  pure res

pub job_insert_front : ℕ → M (Unit {0})
job_insert_front j = do
  wrlock
  h ← head_of
  set_prev j h
  h₁ ← head_of
  n ← get_next h₁
  set_next j n
  h₂ ← head_of
  n₁ ← get_next h₂
  set_prev n₁ j
  h₃ ← head_of
  set_next h₃ j
  unlock

pub job_append : ℕ → M (Unit {0})
job_append j = do
  wrlock
  t ← tail_of
  set_next j t
  t₁ ← tail_of
  p ← get_prev t₁
  set_prev j p
  t₂ ← tail_of
  p₁ ← get_prev t₂
  set_next p₁ j
  t₃ ← tail_of
  set_prev t₃ j
  unlock

pub job_remove : ℕ → M (Unit {0})
job_remove j = do
  wrlock
  p ← get_prev j
  n ← get_next j
  set_next p n
  n₁ ← get_next j
  p₁ ← get_prev j
  set_prev n₁ p₁
  unlock

-- The loop of job_find from `current` on, with fuel.
pub find_from : ℕ → ℕ → ℕ → M ℕ
find_from zero tid current s = spins
find_from (suc fuel) tid current s =
    let rest = find_from fuel tid (s.next current) s in
    if current == s.tail
    then ok 0 s
    else if s.live current
    then (if s.job_tid current == tid then ok current s else rest)
    else fault

-- Both returns stand before the call of pthread_rwlock_unlock.
pub job_find : ℕ → ℕ → M ℕ
unfolding find_from
job_find fuel tid = do rdlock; h ← head_of; current ← get_next h; find_from fuel tid current
