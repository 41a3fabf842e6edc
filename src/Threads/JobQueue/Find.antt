-- ===== src/Threads/JobQueue/Find.antt =====
-- job_find: its result, and the lock that it keeps.
use myapue.Base.{
  ℕ, zero, suc, ◌+◌, ◌<◌, ◌==◌, ◌||◌, not, ◌≡◌, refl, arith, if◌then◌else◌, Bool-cases, inl, inr,
  true, false,
}
use myapue.Base.{List, [], ◌∷◌, length}
use myapue.Threads.Runs.{Run, ok, blocks, then_run}
use myapue.Threads.JobQueue.{
  Queue, find_from, job_find, job_insert_front, job_append, job_remove, job_queue_destroy,
}
use myapue.Threads.JobQueue.Distinct.{has, has-append, Distinct-apart_right}
use myapue.Threads.JobQueue.Links.{Links, first, next-first}
use myapue.Threads.JobQueue.Holds.{Holds}

-- The first job with a thread id, or NULL.
abbrev pub found : (ℕ → ℕ) → ℕ → List ℕ → ℕ
found job_tid tid [] = 0
found job_tid tid (j ∷ js) = if job_tid j == tid then j else found job_tid tid js

find_from-found :
    (s : Queue) (fuel tid a : ℕ) (js : List ℕ)
    → length js < fuel
    → Links s.next s.prev a js s.tail
    → has s.tail js ≡ false
    → ((p : ℕ) → has p js ≡ true → s.live p ≡ true)
    → find_from fuel tid (first js s.tail) s ≡ ok (found s.job_tid tid js) s
unfolding find_from
find_from-found s zero tid a js enough l out lives = absurd (omega arith)
find_from-found s (suc fuel) tid a [] enough l out lives = ground arith
find_from-found s (suc fuel) tid a (j ∷ js) enough l out lives =
    let ih =
      find_from-found s fuel tid j js (omega arith) l.2 (ground (arith, out))
        (λ p h. lives p (ground (arith, h))) in
    let next_j : s.next j ≡ first js s.tail = next-first s.next s.prev j js s.tail l.2 in
    let alive : s.live j ≡ true = lives j (ground arith) in
    let inner : (j == s.tail) ≡ false = ground (arith, out) in
    rw inner (
      rw alive (elim (Bool-cases (s.job_tid j == tid)) [
        | inl hit ↦ rw hit refl
        | inr miss ↦ rw miss (rw next_j ih)
      ]))

-- On a queue that holds the jobs js, job_find returns the first with the thread id, or NULL where
-- there is none, and it keeps its read lock. After that each call of job_insert_front, job_append,
-- job_remove or job_queue_destroy waits for ever.
pub job_find-blocks :
    (s : Queue) (js : List ℕ)
    → Holds js s
    → (fuel tid : ℕ) → length js < fuel
    → (j res : ℕ)
    → let run = job_find fuel tid s in
      (run ≡ ok (found s.job_tid tid js) (record s { readers = s.readers + 1 }))
      × (then_run run (λ _. job_insert_front j) ≡ blocks)
      × (then_run run (λ _. job_append j) ≡ blocks)
      × (then_run run (λ _. job_remove j) ≡ blocks)
      × (then_run run (λ _. job_queue_destroy res) ≡ blocks)
unfolding job_find job_insert_front job_append job_remove job_queue_destroy
job_find-blocks s js q fuel tid enough j res = (
  ran,
  blocked (job_insert_front j) (rw e refl),
  blocked (job_append j) (rw e refl),
  blocked (job_remove j) (rw e refl),
  blocked (job_queue_destroy res) (rw e refl),
)
  where
    held : Queue
    held = record s { readers = s.readers + 1 }

    head_lives : s.live s.head ≡ true
    head_lives = q.lives s.head (ground arith)

    tail_out : has s.tail (s.head ∷ js) ≡ false
    tail_out = Distinct-apart_right s.tail (s.head ∷ js) (s.tail ∷ []) q.distinct (ground arith)

    ran : job_find fuel tid s ≡ ok (found s.job_tid tid js) held
    ran = rw (q.no_writer) (
        rw head_lives (
          rw (next-first s.next s.prev s.head js s.tail q.links) (
            find_from-found (record s { readers = s.readers + 1; writer = false }) fuel tid s.head
              js enough q.links (ground (arith, tail_out))
              (λ p h. q.lives p (ground (arith, h, has-append p js (s.tail ∷ [])))))))

    e : (s.writer || not (held.readers == 0)) ≡ true
    e = ground (arith, q.no_writer)

    blocked :
        {A : Type 0} (m : Queue → Run Queue A)
        → m held ≡ blocks
        → then_run (job_find fuel tid s) (λ _. m) ≡ blocks
    blocked m h = rw ran h
