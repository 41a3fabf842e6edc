-- ===== src/Threads/Messages.antt =====
-- 11.threads/06_condition_variables.c: a producer and any number of consumers over a stack of
-- messages, with a mutex and a condition variable, interleaved in any order. A message is the
-- value of `current_task` with which main makes it; `tasks` is the list along the next pointers. The
-- states stand at the calls on the mutex and the condition and at what changes memory: the messages
-- printed and the pause of a consumer are not steps, and the threads exist from the start.
pub mod Total
pub mod Invariant
pub mod Progress
mod Examples
use myapue.Base.{ℕ, zero, suc, ◌<◌, ◌≡◌, Bool, true, false, List, [], ◌∷◌}
use myapue.Threads.Runs.{write}

-- Where a consumer stands in thread_function and process_message.
pub data Consumer : Type 0 where
  start : Consumer  -- before pthread_mutex_lock
  testing : Consumer  -- with the mutex, before the test of `tasks`
  waiting : Consumer  -- in pthread_cond_wait
  woken : Consumer  -- in pthread_cond_wait, before it takes the mutex again
  taken : (m : ℕ) → Consumer  -- with the mutex, `current` being m
  working : (m : ℕ) → Consumer  -- after pthread_mutex_unlock

-- Where main stands in its loop and in enqueue_message.
pub data Producer : Type 0 where
  making : Producer  -- before the test of task_count
  locking : (m : ℕ) → Producer
  holding : (m : ℕ) → Producer  -- with the mutex, before the message is linked in
  linked : Producer  -- with the mutex, after that
  broadcasting : Producer  -- after pthread_mutex_unlock
  joining : Producer  -- after the loop

pub record System : Type 0 where
  pub tasks : List ℕ
  pub mutex : Bool
  pub task_count : ℕ
  pub freed : List ℕ
  pub consumer : ℕ → Consumer
  pub producer : Producer

-- pthread_cond_broadcast, for a consumer.
abbrev pub wake : Consumer → Consumer
wake waiting = woken
wake c = c

-- A step of consumer i; it may also leave pthread_cond_wait without a broadcast.
pub data Consumes (s : System) (i : ℕ) : Consumer → System → Type 0 where
  lock :
      s.mutex ≡ false
      → Consumes s i start (record s { mutex = true; consumer = write s.consumer i testing })
  wait :
      s.tasks ≡ []
      → Consumes s i testing (record s { mutex = false; consumer = write s.consumer i waiting })
  wakes : Consumes s i waiting (record s { consumer = write s.consumer i woken })
  relock :
      s.mutex ≡ false
      → Consumes s i woken (record s { mutex = true; consumer = write s.consumer i testing })
  take :
      (m : ℕ) (ms : List ℕ)
      → s.tasks ≡ m ∷ ms
      → Consumes s i testing (record s { tasks = ms; consumer = write s.consumer i (taken m) })
  unlock :
      {m : ℕ}
      → Consumes s i
          (taken m)
          (record s { mutex = false; consumer = write s.consumer i (working m) })
  release :
      {m : ℕ}
      → Consumes s i
          (working m)
          (record s { freed = m ∷ s.freed; consumer = write s.consumer i start })

-- A step of main.
pub data Produces (s : System) : Producer → System → Type 0 where
  make :
      (k : ℕ)
      → s.task_count ≡ suc k
      → Produces s making (record s { task_count = k; producer = locking (suc k) })
  finish : s.task_count ≡ 0 → Produces s making (record s { producer = joining })
  lock_queue :
      {m : ℕ}
      → s.mutex ≡ false
      → Produces s (locking m) (record s { mutex = true; producer = holding m })
  link : {m : ℕ} → Produces s (holding m) (record s { tasks = m ∷ s.tasks; producer = linked })
  unlock_queue : Produces s linked (record s { mutex = false; producer = broadcasting })
  broadcast :
      Produces s broadcasting (record s { consumer = λ i. wake (s.consumer i); producer = making })

-- A step of the program with `threads` consumers.
pub data Step (threads : ℕ) (s : System) : System → Type 0 where
  consumes :
      {t : System} (i : ℕ) {c : Consumer}
      → i < threads
      → s.consumer i ≡ c
      → Consumes s i c t
      → Step threads s t
  produces : {t : System} {p : Producer} → s.producer ≡ p → Produces s p t → Step threads s t

-- The start of main, which will make `count` messages.
abbrev pub init : ℕ → System
init count = record {
  tasks = [];
  mutex = false;
  task_count = count;
  freed = [];
  consumer = λ i. start;
  producer = making;
}

pub data Reach (threads count : ℕ) : System → Type 0 where
  here : Reach threads count (init count)
  later : {s t : System} → Reach threads count s → Step threads s t → Reach threads count t
