-- ===== src/Threads/JobQueue/Examples.antt =====
-- The theorems about the job queue at a concrete queue.
use myapue.Base.{ℕ, ◌+◌, ◌==◌, ◌||◌, ◌≡◌, refl, arith, if◌then◌else◌, Bool, false}
use myapue.Base.{[], ◌∷◌}
use myapue.Threads.Runs.{ok, blocks, then_run}
use myapue.Threads.JobQueue.{
  Queue, job_find, job_insert_front, job_append, job_remove, job_queue_destroy,
}
use myapue.Threads.JobQueue.Holds.{Holds}
use myapue.Threads.JobQueue.Operations.{Leaves}
use myapue.Threads.JobQueue.Find.{found, job_find-blocks}
use myapue.Threads.JobQueue.Sequences.{
  insert_front, append, remove, perform_all, DoesAll, nothing, next, fronts_job, appends_job,
  removes_job, perform_all-Leaves_lists,
}

-- Sentinels at 1 and 2, linked to one another; jobs lie at 10 to 19.
abbrev memory : ℕ → Bool
memory a = a == 1 || a == 2 || a == 10 || a == 11 || a == 12

abbrev empty : Queue
empty = record {
  prev = λ a. if a == 2 then 1 else 0;
  next = λ a. if a == 1 then 2 else 0;
  job_tid = λ a. a + 100;
  live = memory;
  head = 1;
  tail = 2;
  readers = 0;
  writer = false;
}

empty-Holds : Holds [] empty
empty-Holds = record {
  links = (refl, refl);
  distinct = (refl, (refl, tt));
  lives = λ p h. ground (arith, h);
  no_reader = refl;
  no_writer = refl;
}

calls-DoesAll :
    DoesAll 1 2 memory [] (append 10 ∷ insert_front 11 ∷ append 12 ∷ remove 10 ∷ []) (11 ∷ 12 ∷ [])
calls-DoesAll = next (appends_job 10 refl refl) (
    next (fronts_job 11 refl refl)
      (next (appends_job 12 refl refl) (next (removes_job (11 ∷ []) 10 (12 ∷ []) refl) nothing)))

perform_all-Leaves_lists_example :
    Leaves
      (11 ∷ 12 ∷ [])
      empty
      (perform_all (append 10 ∷ insert_front 11 ∷ append 12 ∷ remove 10 ∷ []) empty)
perform_all-Leaves_lists_example =
    perform_all-Leaves_lists calls-DoesAll empty refl refl refl empty-Holds

job_find-blocks_example :
    let run = job_find 3 107 empty in
    (run ≡ ok (found empty.job_tid 107 []) (record empty { readers = 0 + 1 }))
    × (then_run run (λ _. job_insert_front 10) ≡ blocks)
    × (then_run run (λ _. job_append 10) ≡ blocks)
    × (then_run run (λ _. job_remove 10) ≡ blocks)
    × (then_run run (λ _. job_queue_destroy 0) ≡ blocks)
job_find-blocks_example = job_find-blocks empty [] empty-Holds 3 107 (omega arith) 10 0
