-- ===== src/Threads/Messages/Examples.antt =====
-- The theorems about the message queue at a concrete run.
use myapue.Base.{ℕ, ◌<◌, ◌≡◌, ◌⊎◌, refl, arith, false, [], ◌∷◌}
use myapue.Threads.Runs.{write}
use myapue.Threads.Messages.{
  start, testing, waiting, making, joining, broadcasting, System, lock, wait, make, lock_queue,
  link, unlock_queue, consumes, produces, Reach, here, later,
}
use myapue.Threads.Messages.Invariant.{Inv, Reach-Inv, count, upto}
use myapue.Threads.Messages.Progress.{GoesOn, Reach-GoesOn}

-- Two consumers; the first one sleeps before main links its only message in.
abbrev asleep : System
asleep = record {
  tasks = [];
  mutex = false;
  task_count = 1;
  freed = [];
  consumer = write (write (λ i. start) 0 testing) 0 waiting;
  producer = making;
}

asleep-Reach : Reach 2 1 asleep
asleep-Reach =
    later (later here (consumes 0 (omega arith) refl (lock refl)))
      (consumes 0 (omega arith) refl (wait refl))

abbrev announced : System
announced = record asleep { tasks = 1 ∷ []; task_count = 0; producer = broadcasting }

announced-Reach : Reach 2 1 announced
announced-Reach =
    later
      (later
        (later (later asleep-Reach (produces refl (make 0 refl))) (produces refl (lock_queue refl)))
        (produces refl link))
      (produces refl unlock_queue)

Reach-Inv_example : Inv 2 1 announced
Reach-Inv_example = Reach-Inv announced-Reach

Reach-GoesOn_example :
    GoesOn 2 announced
    ⊎ ((announced.producer ≡ joining)
        × ((i : ℕ) → i < 2 → announced.consumer i ≡ waiting)
        × ((m : ℕ) → count m announced.freed ≡ upto 1 m))
Reach-GoesOn_example = Reach-GoesOn (omega arith) announced-Reach
