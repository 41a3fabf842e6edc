-- ===== src/Posix.antt =====
-- How the programs call the system. What the system answers is not code of the repository: it is
-- the parameter `os` of every program, a function of the calls made so far and of the call at
-- hand. A run is a value of the monad `Prog`: it extends the trace of calls with their answers,
-- the latest first, and it returns or ends the process.
pub mod Ledger
use Prim.Native.String.{String}
use myapue.Base.{ℕ, Bool, true, false, List, [], ◌∷◌, ltb, if◌then◌else◌}

-- The calls of the programs, with the arguments that matter to what the programs do.
pub data Call : Type 0 where
  socket : (family kind : ℕ) → Call
  bind : (fd : ℕ) (name : String) → Call
  listen : (fd backlog : ℕ) → Call
  accept : (fd : ℕ) → Call
  connect : (fd : ℕ) (name : String) → Call
  send : (fd : ℕ) (message : List ℕ) → Call
  recv : (fd size : ℕ) → Call
  sendto : (fd : ℕ) (message : List ℕ) → Call
  recvfrom : (fd size : ℕ) → Call
  sendmsg : (fd passed : ℕ) → Call
  recvmsg : (fd : ℕ) → Call
  close : (fd : ℕ) → Call
  unlink : (name : String) → Call
  open_file : (name : String) → Call
  write : (fd : ℕ) (message : List ℕ) → Call
  read : (fd size : ℕ) → Call
  lseek : (fd offset : ℕ) → Call
  fstat : (fd : ℕ) → Call
  gethostname : Call
  getaddrinfo : (kind : ℕ) → Call
  popen : (command : String) → Call
  fgets : (stream : ℕ) → Call
  sleep : (seconds : ℕ) → Call
  report : (message : String) → Call
  fork : Call
  waitpid : (pid : ℕ) → Call
  execl : (command : String) → Call
  sigaction : (signo : ℕ) (handler : ℕ) → Call
  query_action : (signo : ℕ) → Call
  sigprocmask : (mask : List ℕ) → Call
  block : (signo : ℕ) → Call
  sigaddset : (signo : ℕ) → Call
  sigsuspend : (mask : List ℕ) → Call
  kill : (pid signo : ℕ) → Call
  fflush : Call
  alarm : (seconds : ℕ) → Call
  umask : (mask : ℕ) → Call
  setsid : Call
  chdir : (path : String) → Call
  getrlimit : Call
  dup : (fd : ℕ) → Call
  openlog : (name : String) → Call
  syslog : (message : String) → Call
  lockf : (fd : ℕ) → Call
  ftruncate : (fd size : ℕ) → Call
  getpid : Call
  pause : Call
  block_all : Call
  pthread_create : Call
  sigwait : Call
  aio_read : (slot fd offset size : ℕ) → Call
  aio_write : (slot fd offset size : ℕ) → Call
  aio_error : (slot : ℕ) → Call
  aio_return : (slot : ℕ) → Call
  aio_suspend : (slots : List Bool) → Call
  aio_fsync : (fd : ℕ) → Call
  msgrcv : (queue size : ℕ) → Call
  msgget : (key : ℕ) → Call
  epoll_create : (size : ℕ) → Call
  epoll_ctl : (epfd fd : ℕ) → Call
  epoll_wait : (epfd size : ℕ) → Call
  socketpair : Call
  mmap : (fd offset size : ℕ) → Call
  munmap : (address size : ℕ) → Call
  memcpy : (to from size : ℕ) → Call
  pipe : Call
  sysconf : Call
  calloc : (count : ℕ) → Call
  dup2 : (fd to : ℕ) → Call
  fdopen : (fd : ℕ) → Call
  sprintf : (number : ℕ) → Call

-- `ok v out` is a return of `v`, which is not negative, with what the call stored through its
-- pointers; `fail e` is a return of -1 with `errno` set to `e`.
pub data Answer : Type 0 where
  ok : (value : ℕ) (out : List ℕ) → Answer
  fail : (errno : ℕ) → Answer

abbrev pub failed : Answer → Bool
failed (ok v out) = false
failed (fail e) = true

-- The value of a call that did not fail.
abbrev pub value : Answer → ℕ
value (ok v out) = v
value (fail e) = 0

abbrev pub out_of : Answer → List ℕ
out_of (ok v out) = out
out_of (fail e) = []

abbrev pub errno_of : Answer → ℕ
errno_of (ok v out) = 0
errno_of (fail e) = e

abbrev pub Trace : Type 0
Trace = List (Call × Answer)

abbrev pub Os : Type 0
Os = Trace → Call → Answer

-- An `int` that a function returns: a descriptor or a count, or -1.
pub data Status : Type 0 where
  nonneg : ℕ → Status
  minus_one : Status

-- How a run ends: a return to the caller, `exit(n)`, a program that takes the place of this one
-- (`exec`), undefined behaviour such as a write outside an array, or a loop that has not ended
-- within the rounds it was given.
pub data Outcome (A : Type 0) : Type 0 where
  returns : A → Outcome A
  exits : Status → Outcome A
  execs : (command : String) → Outcome A
  faults : Outcome A
  spins : Outcome A

-- How a function ends in a process that a signal may end: it returns to its caller, or a signal whose
-- action is the default one has ended the process within it.
pub data Fate : Type 0 where
  back : Fate
  killed : (signo : ℕ) → Fate

abbrev pub Prog : Type 0 → Type 0
Prog A = Trace → Outcome A × Trace

abbrev pub then_run : {A B : Type 0} → Outcome A × Trace → (A → Prog B) → Outcome B × Trace
then_run (returns a, t) f = f a t
then_run (exits n, t) f = (exits n, t)
then_run (execs c, t) f = (execs c, t)
then_run (faults, t) f = (faults, t)
then_run (spins, t) f = (spins, t)

infixl 5 ◌>>=◌ ◌>>◌
abbrev pub ◌>>=◌ : {A B : Type 0} → Prog A → (A → Prog B) → Prog B
◌>>=◌ m f t = then_run (m t) f

abbrev pub ◌>>◌ : {A B : Type 0} → Prog A → Prog B → Prog B
◌>>◌ m k t = then_run (m t) (λ _. k)

abbrev pub pure : {A : Type 0} → A → Prog A
pure a t = (returns a, t)

-- exit(n)
abbrev pub exit : {A : Type 0} → Status → Prog A
exit n t = (exits n, t)

-- An access to an array of `size` elements at `index`.
abbrev pub in_bounds : ℕ → ℕ → Prog (Unit {0})
in_bounds index size t = (if ltb index size then returns tt else faults, t)

abbrev pub fault : {A : Type 0} → Prog A
fault t = (faults, t)

abbrev pub call : Os → Call → Prog Answer
call os c t = (returns (os t c), (c, os t c) ∷ t)

-- perror or printf
abbrev pub print : Os → String → Prog Answer
print os message = call os (Call.report message)

-- What two programs in a row end with, from what each ends with.
module _ {A B : Type 0} (P : Outcome A → Trace → Type 0) (Q : Outcome B → Trace → Type 0)
    (f : A → Prog B) (normal : (a : A) (t : Trace) → P (returns a) t → Q (f a t).0 (f a t).1)
    (exit_case : (n : Status) (t : Trace) → P (exits n) t → Q (exits n) t)
    (exec_case : (c : String) (t : Trace) → P (execs c) t → Q (execs c) t)
    (fault_case : (t : Trace) → P faults t → Q faults t)
    (spin_case : (t : Trace) → P spins t → Q spins t) where
  pub bind_post :
      (run : Outcome A × Trace) → P run.0 run.1 → Q (then_run run f).0 (then_run run f).1
  bind_post (returns a, t) h = normal a t h
  bind_post (exits n, t) h = exit_case n t h
  bind_post (execs c, t) h = exec_case c t h
  bind_post (faults, t) h = fault_case t h
  bind_post (spins, t) h = spin_case t h
