-- ===== src/Signals/System.antt =====
-- system of 10.signals/16_system.c.
pub mod Restores
pub mod Edges
pub mod Program
use Prim.Native.String.{String}
use myapue.Base.{
  ℕ, zero, suc, ◌+◌, ◌*◌, ◌≤◌, ◌<◌, ◌/◌, ◌==◌, ltb, leb, if◌then◌else◌, ◌||◌, ◌⊎◌, not, Bool, true,
  false, ◌≡◌, ◌∙◌, refl, arith, List, [], ◌∷◌, length, get_or, Option, none, some,
}
use myapue.Posix.{
  Os, Prog, Trace, Status, nonneg, minus_one, pure, exit, ◌>>=◌, ◌>>◌, call, print, failed,
  errno_of,
}
use myapue.Posix.{
  value, ok, fail, out_of, Call, Answer, Outcome, returns, exits, execs, faults, spins, in_bounds,
  fault, bind_post,
}
use myapue.Posix.Ledger.{open_fds, failures, without, closes, received}
use myapue.Signals.State.{
  sig_dfl, sig_ign, sigint, sigquit, sigchld, Initial, action, mask, ReportsOld,
}

-- errno EINTR
abbrev pub eintr : ℕ
eintr = 4

-- What the first part of the function leaves for the rest: the saved dispositions and mask and
-- the answer of fork, or the -1 that is returned.
pub data Prepared : Type 0 where
  forked : (saved_int saved_quit : ℕ) (saved_mask : List ℕ) (pid : ℕ) → Prepared
  refused : Prepared

module _ (os : Os) where
  pub refuse : String → Prog Prepared
  refuse message = do print os message; pure refused

  unfoldable pub prepare : Prog Prepared
  unfolding refuse
  prepare = do
    i ← call os (Call.sigaction sigint sig_ign)
    if failed i then refuse "sigaction error" else do
      q ← call os (Call.sigaction sigquit sig_ign)
      if failed q then refuse "sigaction error" else do
        s ← call os (Call.sigaddset sigchld)
        if failed s then pure refused else do
          m ← call os (Call.block sigchld)
          if failed m then refuse "sigprocmask error" else do
            f ← call os Call.fork
            if failed f
                then refuse "fork error"
                else pure
                    (forked (get_or (out_of i) 0 0) (get_or (out_of q) 0 0) (out_of m) (value f))

  pub die : String → Prog Status
  die message = do print os message; exit minus_one

  -- execl returns only if it fails.
  pub run_command : String → Prog Status
  unfolding die
  run_command command t = elim (os t (Call.execl command)) [
    | ok v out ↦ (execs command, (Call.execl command, ok v out) ∷ t)
    | fail e ↦ die "execl error" ((Call.execl command, fail e) ∷ t)
  ]

  -- The branch of the child.
  pub child : ℕ → ℕ → List ℕ → String → Prog Status
  unfolding die run_command
  child saved_int saved_quit saved_mask command = do
    i ← call os (Call.sigaction sigint saved_int)
    if failed i then die "sigaction error" else do
      q ← call os (Call.sigaction sigquit saved_quit)
      if failed q then die "sigaction error" else do
        m ← call os (Call.sigprocmask saved_mask)
        if failed m then die "sigprocmask error" else run_command command

  -- What a round does with the answer of waitpid; `again` is the rest of the loop.
  pub wait_next : Prog Status → Answer → Prog Status
  wait_next again (ok v out) = pure (nonneg (get_or out 0 0))
  wait_next again (fail e) = if e == eintr then again else pure minus_one

  -- The loop on waitpid, with fuel for its rounds: the status, or -1.
  unfoldable pub wait_for : ℕ → ℕ → Prog Status
  unfolding wait_next
  wait_for zero pid t = (spins, t)
  wait_for (suc fuel) pid t =
      wait_next (wait_for fuel pid) (os t (Call.waitpid pid))
        ((Call.waitpid pid, os t (Call.waitpid pid)) ∷ t)

  -- The branch of the parent after the loop.
  unfoldable pub restore : ℕ → ℕ → List ℕ → Status → Prog Status
  unfolding die
  restore saved_int saved_quit saved_mask status = do
    i ← call os (Call.sigaction sigint saved_int)
    if failed i then die "sigaction error" else do
      q ← call os (Call.sigaction sigquit saved_quit)
      if failed q then die "sigaction error" else do
        m ← call os (Call.sigprocmask saved_mask)
        if failed m then (do print os "sigprocmask error"; pure minus_one) else pure status

  unfoldable pub parent : ℕ → ℕ → ℕ → List ℕ → ℕ → Prog Status
  parent fuel saved_int saved_quit saved_mask pid = do
    status ← wait_for fuel pid
    restore saved_int saved_quit saved_mask status

  unfoldable pub continue : ℕ → String → Prepared → Prog Status
  continue fuel command refused = pure minus_one
  continue fuel command (forked saved_int saved_quit saved_mask pid) =
      if pid == 0
      then child saved_int saved_quit saved_mask command
      else parent fuel saved_int saved_quit saved_mask pid

  unfoldable pub system : ℕ → String → Prog Status
  system fuel command = do p ← prepare; continue fuel command p
