-- ===== src/Signals/Abort.antt =====
-- abort of 10.signals/15_abort.c.
use Prim.Native.String.{String}
use myapue.Base.{
  ◌⊎◌, ◌&&◌, refl, ℕ, zero, suc, ◌==◌, ◌<◌, ◌≤◌, if◌then◌else◌, not, Bool, true, false, ◌≡◌, arith,
  List, [], ◌∷◌,
}
use myapue.Posix.{Os, Prog, Trace, nonneg, pure, exit, ◌>>=◌, ◌>>◌, call, print, failed}
use myapue.Posix.{value, Call, Answer, Outcome, exits, returns, Fate, killed}
use myapue.Posix.Ledger.{failures}
use myapue.Signals.State.{sigabrt, sig_dfl, sig_ign, Initial, action, mask}
use myapue.Signals.Sleep.{sigdelset}

abbrev pub exit_failure : ℕ
exit_failure = 1

-- The signals from 64 down to 1.
abbrev pub signals : ℕ → List ℕ
signals zero = []
signals (suc n) = suc n ∷ signals n

abbrev pub set_abort : List ℕ
set_abort = sigdelset sigabrt (signals 64)

-- A value as a condition of C.
abbrev pub is_true : ℕ → Bool
is_true n = not (n == 0)

-- s is one of the signals of a mask.
pub is_blocked : ℕ → List ℕ → Bool
is_blocked s [] = false
is_blocked s (r ∷ mask) = if r == s then true else is_blocked s mask

-- What the kernel does with a signal that kill has sent to this process: with the default action, and
-- not blocked, SIGABRT ends it within kill.
abbrev pub ends_process : Answer → ℕ → List ℕ → Bool
ends_process k disposition mask =
    not (failed k) && (disposition == sig_dfl) && not (is_blocked sigabrt mask)

module _ (initial : Initial) (os : Os) where
  pub die : String → Prog Fate
  die message = do print os message; exit (nonneg exit_failure)

  -- The answer to kill, in a process with the dispositions and the mask of the trace; where the
  -- signal does not end the process, `again` goes on.
  pub survive : Prog Fate → Answer → Prog Fate
  survive again k t =
      if ends_process k (action initial t sigabrt) (mask initial t)
      then (returns (killed sigabrt), t)
      else again t

  -- kill(getpid(), SIGABRT), and what follows it
  pub raise : Prog Fate → Prog Fate
  unfolding survive
  raise again = do
    p ← call os Call.getpid
    k ← call os (Call.kill (value p) sigabrt)
    survive again k

  -- From the second fflush on.
  pub raise_again : Prog Fate
  unfolding die raise
  raise_again = do
    call os Call.fflush
    a ← call os (Call.sigaction sigabrt sig_dfl)
    if failed a then die "sigaction error" else do
      m ← call os (Call.sigprocmask set_abort)
      if failed m then die "sigprocmask error" else raise (exit (nonneg exit_failure))

  -- if (action.sa_handler = SIG_DFL) fflush(NULL);
  pub flush_if : Bool → Prog (Unit {0})
  flush_if true = do call os Call.fflush; pure tt
  flush_if false = pure tt

  -- From that test on.
  pub unblock : Prog Fate
  unfolding die flush_if raise raise_again
  unblock = do
    flush_if (is_true sig_dfl)
    m ← call os (Call.sigprocmask set_abort)
    if failed m then die "sigprocmask error" else raise raise_again

  -- The two conditions on the handler are assignments, and so are true and false.
  pub abort : Prog Fate
  unfolding die unblock
  abort = do
    print os "abort start..."
    q ← call os (Call.query_action sigabrt)
    if failed q then die "sigaction error" else do
      if is_true sig_ign
          then (do
            a ← call os (Call.sigaction sigabrt sig_dfl)
            if failed a then die "sigaction error" else unblock)
          else unblock

-- How often SIGABRT has been sent.
abbrev pub raised : Trace → ℕ
raised [] = 0
raised ((Call.kill pid s, a) ∷ t) = if s == sigabrt then suc (raised t) else raised t
raised ((c, a) ∷ t) = raised t

-- How often stdio has been flushed.
abbrev pub flushes : Trace → ℕ
flushes [] = 0
flushes ((Call.fflush, a) ∷ t) = suc (flushes t)
flushes ((c, a) ∷ t) = flushes t

set_abort-open : is_blocked sigabrt set_abort ≡ false
unfolding is_blocked
set_abort-open = refl

-- How a call may end.
abbrev pub Aborts : Initial → Trace → Outcome Fate → Trace → Type 0
Aborts initial t (returns (killed s)) ((Call.kill pid r, Answer.ok _ _) ∷ t') =
    (s ≡ sigabrt)
    × (r ≡ sigabrt)
    × (action initial t' sigabrt ≡ sig_dfl)
    × (mask initial t' ≡ set_abort)
    × (((raised t' ≡ raised t) × (flushes t' ≡ flushes t))
        ⊎ ((raised t' ≡ suc (raised t))
            × (flushes t' ≡ suc (flushes t))
            × (failures t < failures t')))
Aborts initial t (exits n) t' = (n ≡ nonneg exit_failure) × (failures t < failures t')
Aborts initial t _ t' = ⊥

-- What has happened since the call, before the first kill and before the second flush.
module _ (initial : Initial) (os : Os) (t : Trace) where
  raise_again-Aborts :
      (t₁ : Trace)
      → raised t₁ ≡ suc (raised t)
      → flushes t₁ ≡ flushes t
      → failures t < failures t₁
      → let run = raise_again initial os t₁ in Aborts initial t run.0 run.1
  unfolding raise_again raise survive die
  raise_again-Aborts t₁ r f e = ground (arith, set_abort-open)

  unblock-Aborts :
      (t₁ : Trace)
      → raised t₁ ≡ raised t
      → flushes t₁ ≡ flushes t
      → failures t ≤ failures t₁
      → action initial t₁ sigabrt ≡ sig_dfl
      → let run = unblock initial os t₁ in Aborts initial t run.0 run.1
  unfolding unblock flush_if raise survive die
  unblock-Aborts t₁ r f e d =
      let m = os t₁ (Call.sigprocmask set_abort) in
      let t₂ : Trace = (Call.sigprocmask set_abort, m) ∷ t₁ in
      let p = os t₂ Call.getpid in
      let t₃ : Trace = (Call.getpid, p) ∷ t₂ in
      let k = os t₃ (Call.kill (value p) sigabrt) in
      let t₄ : Trace = (Call.kill (value p) sigabrt, k) ∷ t₃ in
      ground (arith, set_abort-open, raise_again-Aborts t₄)

-- abort never returns to its caller. Either some call has failed and it exits with EXIT_FAILURE; or
-- SIGABRT, sent by kill while its action is the default one, whatever handler the caller had
-- installed, and while all other signals are blocked, ends the process. That happens in the first
-- kill, where stdio has never been flushed, or in the second, after a call has failed and one flush.
pub abort-Aborts :
    (initial : Initial) (os : Os) (t : Trace)
    → let run = abort initial os t in Aborts initial t run.0 run.1
unfolding abort die
abort-Aborts initial os t =
    let b = os t (Call.report "abort start...") in
    let t₁ : Trace = (Call.report "abort start...", b) ∷ t in
    let q = os t₁ (Call.query_action sigabrt) in
    let t₂ : Trace = (Call.query_action sigabrt, q) ∷ t₁ in
    let a = os t₂ (Call.sigaction sigabrt sig_dfl) in
    let t₃ : Trace = (Call.sigaction sigabrt sig_dfl, a) ∷ t₂ in
    ground (arith, unblock-Aborts initial os t t₃)
