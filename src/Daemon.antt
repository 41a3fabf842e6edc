-- ===== src/Daemon.antt =====
-- 13.deamons: daemonize and already_running, whose text is the same in 01_daemonize.c,
-- 02_reread1.c and 03_reread2.c up to the test of already_running; what follows it differs.
pub mod Table
pub mod Detach
pub mod Ends
pub mod Reread
pub mod Handlers
mod Examples
use Prim.Native.String.{String}
use myapue.Base.{
  ℕ, zero, suc, ◌+◌, ◌*◌, ◌≤◌, ◌<◌, ◌/◌, ◌==◌, ltb, leb, if◌then◌else◌, ◌||◌, ◌⊎◌, not, Bool, true,
  false, ◌≡◌, ◌∙◌, refl, arith, List, [], ◌∷◌, length, get_or, Option, none, some,
}
use myapue.Posix.{
  Os, Prog, Trace, Status, nonneg, minus_one, pure, exit, ◌>>=◌, ◌>>◌, call, print, failed,
  errno_of,
}
use myapue.Posix.{
  value, out_of, Call, Answer, Outcome, returns, exits, execs, faults, spins, in_bounds, fault,
  bind_post,
}
use myapue.Posix.Ledger.{open_fds, failures, without, closes, received}
use myapue.Base.{◌-◌}

abbrev pub sighup : ℕ
sighup = 1

abbrev pub sig_dfl : ℕ
sig_dfl = 0

abbrev pub sig_ign : ℕ
sig_ign = 1

abbrev pub rlim_infinity : ℕ
rlim_infinity = 0xffff_ffff_ffff_ffff

abbrev pub lock_file : String
lock_file = "/home/liucong/01_daemonize@liucong"

-- The test of the three descriptors.
pub are_wrong : Answer → Answer → Answer → Bool
are_wrong fd0 fd1 fd2 =
    failed fd0
    || not (value fd0 == 0)
    || failed fd1
    || not (value fd1 == 1)
    || failed fd2
    || not (value fd2 == 2)

-- rlim_max, with the value that stands in for infinity.
pub fd_limit : Answer → ℕ
fd_limit a =
    let rlim_max = get_or (out_of a) 0 0 in if rlim_max == rlim_infinity then 1024 else rlim_max

module _ (os : Os) where
  -- 0, -1 if the file cannot be opened, and the end of the process if another one holds the lock.
  -- `os` answers the characters that sprintf stores, with a terminator, in a buffer of 16 bytes.
  pub already_running : Prog Status
  already_running = do
    a ← call os (Call.open_file lock_file)
    if failed a then pure minus_one else do
      l ← call os (Call.lockf (value a))
      if failed l then (do call os (Call.close (value a)); exit minus_one) else do
        call os (Call.ftruncate (value a) 0)
        p ← call os Call.getpid
        s ← call os (Call.sprintf (value p))
        in_bounds (length (out_of s)) 16
        call os (Call.write (value a) (out_of s))
        pure (nonneg 0)

  -- The loop that closes the descriptors from `i` on, with `left` of them to go.
  pub close_from : ℕ → ℕ → Prog (Unit {0})
  close_from zero i t = (returns tt, t)
  close_from (suc left) i t = close_from left (i + 1) ((Call.close i, os t (Call.close i)) ∷ t)

  pub judge : Bool → Prog (Unit {0})
  judge true = do call os (Call.syslog "fd error"); exit minus_one
  judge false = pure tt

  -- The three standard descriptors on /dev/null.
  pub open_null : String → Prog (Unit {0})
  unfolding judge
  open_null cmd = do
    fd0 ← call os (Call.open_file "/dev/null")
    fd1 ← call os (Call.dup 0)
    fd2 ← call os (Call.dup 0)
    call os (Call.openlog cmd)
    judge (are_wrong fd0 fd1 fd2)

  -- From open("/dev/null") on: an already_running that returns -1 ends the process.
  pub must_lock : Status → Prog (Unit {0})
  must_lock minus_one = exit minus_one
  must_lock (nonneg n) = pure tt

  pub lock_down : Prog (Unit {0})
  unfolding must_lock
  lock_down = do a ← already_running; must_lock a

  pub start_up : String → Prog (Unit {0})
  start_up cmd = do open_null cmd; lock_down

  -- From setsid to the test of already_running, in the child.
  pub settle : String → Prog (Unit {0})
  settle cmd = do
    call os Call.setsid
    call os (Call.chdir "/")
    r ← call os Call.getrlimit
    close_from (fd_limit r) 0
    start_up cmd

  -- From the first line to the branches on the answer of fork: whether the caller is the child.
  pub fork_away : Prog Bool
  fork_away = do
    call os (Call.umask 0)
    call os (Call.sigaction sighup sig_ign)
    f ← call os Call.fork
    if failed f then pure false else do if value f == 0 then pure true else exit (nonneg 0)

  -- 01_daemonize.c: the rest of daemonize waits for a signal. No handler is installed, so that pause
  -- never returns: a signal is ignored or kills the process there.
  pub wait_signal : Prog (Unit {0})
  wait_signal t = (spins, (Call.pause, os t Call.pause) ∷ t)

  pub in_child : Prog (Unit {0}) → Bool → Prog (Unit {0})
  in_child rest true = rest
  in_child rest false = pure tt

  pub daemonize : String → Prog (Unit {0})
  daemonize cmd = do c ← fork_away; in_child (do settle cmd; wait_signal) c
