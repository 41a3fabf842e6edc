-- ===== src/Popen.antt =====
-- my_popen, my_pclose and main of 15.ipc1/04_popen.c. A stream is the number of its descriptor, and
-- `none` is NULL. OPENMAX is not defined.
pub mod Pairs
mod Examples
use Prim.Native.String.{String}
use myapue.Base.{
  ◌^◌, ◌-◌, ℕ, zero, suc, ◌==◌, ltb, if◌then◌else◌, List, [], ◌∷◌, Option, none, some, get_or, set,
  replicate, length,
}
use myapue.Posix.{
  execs, Os, Prog, Status, nonneg, minus_one, pure, ◌>>=◌, ◌>>◌, call, print, failed, fault,
  in_bounds, spins,
}
use myapue.Posix.{value, out_of, Call, Answer}

-- type[0]
pub data Direction : Type 0 where
  reading : Direction
  writing : Direction
  other : Direction

-- pid_array
abbrev pub Pids : Type 0
Pids = Option (List ℕ)

-- What sysconf answers, as calloc takes it: -1 is the greatest size_t.
abbrev pub open_max : Answer → ℕ
open_max (Answer.ok v out) = v
open_max (Answer.fail e) = 2 ^ 64 - 1

-- A zeroed array, or NULL.
abbrev pub allocated : ℕ → Answer → Pids
allocated size (Answer.ok v out) = some (replicate size 0)
allocated size (Answer.fail e) = none

abbrev pub stream_of : ℕ → Answer → Option ℕ
stream_of fd (Answer.ok v out) = some fd
stream_of fd (Answer.fail e) = none

-- pid_array[fd] = pid, a write through NULL or outside the array being undefined
abbrev pub store_pid : Pids → ℕ → ℕ → Prog Pids
store_pid none fd pid = fault
store_pid (some pids) fd pid = do in_bounds fd (length pids); pure (some (set pids fd pid))

module _ (os : Os) where
  -- The child's side, which does not return where execl succeeds, and ends without a value where
  -- it fails.
  pub run_child : Direction → String → (in_fd out_fd : ℕ) → Pids → Prog (Option ℕ × Pids)
  run_child reading command in_fd out_fd pids = do
    call os (Call.close in_fd)
    call os (Call.dup2 out_fd 1)
    e ← call os (Call.execl command)
    if failed e then fault else (λ t. (execs command, t))
  run_child writing command in_fd out_fd pids = do
    call os (Call.close out_fd)
    call os (Call.dup2 in_fd 0)
    e ← call os (Call.execl command)
    if failed e then fault else (λ t. (execs command, t))
  run_child other command in_fd out_fd pids = pure (none, pids)

  pub keep_end : Direction → ℕ → (in_fd out_fd : ℕ) → Pids → Prog (Option ℕ × Pids)
  keep_end reading pid in_fd out_fd pids = do
    call os (Call.close out_fd)
    s ← call os (Call.fdopen in_fd)
    pids' ← store_pid pids in_fd pid
    pure (stream_of in_fd s, pids')
  keep_end writing pid in_fd out_fd pids = do
    call os (Call.close in_fd)
    pids' ← store_pid pids out_fd pid
    s ← call os (Call.fdopen out_fd)
    pure (stream_of out_fd s, pids')
  keep_end other pid in_fd out_fd pids = pure (none, pids)

  -- From fork on.
  pub fork_off : Direction → String → (in_fd out_fd : ℕ) → Pids → Prog (Option ℕ × Pids)
  unfolding run_child keep_end
  fork_off type command in_fd out_fd pids = do
    c ← call os Call.fork
    if failed c
        then pure (none, pids)
        else if value c == 0
        then run_child type command in_fd out_fd pids
        else keep_end type (value c) in_fd out_fd pids

  -- The array of before is lost, whatever it holds. Where pipe fails, the descriptors are not set.
  pub my_popen : String → Direction → Pids → Prog (Option ℕ × Pids)
  unfolding fork_off
  my_popen command type old_pids = do
    p ← call os Call.pipe
    n ← call os Call.sysconf
    print os "open_max"
    a ← call os (Call.calloc (open_max n))
    if failed p
        then fault
        else fork_off type command (get_or (out_of p) 0 0) (get_or (out_of p) 1 0)
            (allocated (open_max n) a)

  -- The status of a waitpid that fails is not set.
  pub my_pclose : ℕ → Pids → Prog Status
  my_pclose fd none = pure minus_one
  my_pclose fd (some pids) = do
    in_bounds fd (length pids)
    if get_or pids fd 0 == 0 then pure minus_one else do
      w ← call os (Call.waitpid (get_or pids fd 0))
      if failed w then fault else pure (nonneg (get_or (out_of w) 0 0))

  -- The loop of main, for a number of rounds.
  pub put_lines : ℕ → ℕ → Prog Status
  put_lines zero stream t = (spins, t)
  put_lines (suc rounds) stream t =
      (do
        l ← call os (Call.fgets stream)
        if failed l then pure (nonneg 0) else (do print os "line"; put_lines rounds stream))
        t

  -- fgets from NULL is undefined. The stream is not closed.
  pub put_from : ℕ → Option ℕ → Prog Status
  unfolding put_lines
  put_from rounds none = fault
  put_from rounds (some stream) = put_lines rounds stream

  pub main : ℕ → Prog Status
  unfolding my_popen put_from
  main rounds = do s ← my_popen "ls" reading none; put_from rounds s.0
