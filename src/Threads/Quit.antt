-- ===== src/Threads/Quit.antt =====
-- 12.threadcontrol/05_suspend.c: main waits on a condition until the thread for signals has seen
-- SIGQUIT, interleaved in any order. The states stand at the calls on the mutex and the condition and
-- at what changes `flag`; the messages printed are not steps, and the thread exists from the start.
pub mod Invariant
pub mod Ends
mod Examples
use myapue.Base.{ℕ, suc, ◌≡◌, Bool, true, false}

-- Where the thread stands in thread_handler.
pub data Handler : Type 0 where
  awaiting : Handler  -- in sigwait
  quitting : Handler  -- after SIGQUIT, before pthread_mutex_lock
  setting : Handler  -- with the mutex, before flag = 1
  done : Handler  -- with the mutex, after that
  signalling : Handler  -- after pthread_mutex_unlock
  ended : Handler  -- after pthread_cond_signal
  failed : Handler  -- after an error of sigwait, or an unexpected signal

-- Where main stands from pthread_mutex_lock on.
pub data Main : Type 0 where
  locking : Main
  testing : Main  -- with the mutex, before the test of `flag`
  waiting : Main  -- in pthread_cond_wait
  woken : Main  -- in pthread_cond_wait, before it takes the mutex again
  leaving : Main  -- with the mutex, after the loop
  past : Main  -- after pthread_mutex_unlock

pub record System : Type 0 where
  pub flag : Bool
  pub mutex : Bool
  pub handler : Handler
  pub main : Main

-- pthread_cond_signal, for main.
abbrev pub wake : Main → Main
wake waiting = woken
wake m = m

-- A step of the thread; sigwait answers as the kernel likes.
pub data Handles (s : System) : Handler → System → Type 0 where
  interrupt : Handles s awaiting s
  quit : Handles s awaiting (record s { handler = quitting })
  fail : Handles s awaiting (record s { handler = failed })
  lock : s.mutex ≡ false → Handles s quitting (record s { mutex = true; handler = setting })
  set : Handles s setting (record s { flag = true; handler = done })
  unlock : Handles s done (record s { mutex = false; handler = signalling })
  signal : Handles s signalling (record s { handler = ended; main = wake s.main })

-- A step of main, which may leave pthread_cond_wait without a signal.
pub data Waits (s : System) : Main → System → Type 0 where
  take : s.mutex ≡ false → Waits s locking (record s { mutex = true; main = testing })
  wait : s.flag ≡ false → Waits s testing (record s { mutex = false; main = waiting })
  wakes : Waits s waiting (record s { main = woken })
  retake : s.mutex ≡ false → Waits s woken (record s { mutex = true; main = testing })
  leave : s.flag ≡ true → Waits s testing (record s { main = leaving })
  release : Waits s leaving (record s { mutex = false; main = past })

pub data Step (s : System) : System → Type 0 where
  handles : {t : System} {h : Handler} → s.handler ≡ h → Handles s h t → Step s t
  waits : {t : System} {m : Main} → s.main ≡ m → Waits s m t → Step s t

abbrev pub init : System
init = record { flag = false; mutex = false; handler = awaiting; main = locking }

pub data Reach : System → Type 0 where
  here : Reach init
  later : {s t : System} → Reach s → Step s t → Reach t
