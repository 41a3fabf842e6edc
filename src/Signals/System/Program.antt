-- ===== src/Signals/System/Program.antt =====
-- sig_child and main of 10.signals/16_system.c. The handler runs where the kernel calls it; it is
-- modelled apart from main.
use Prim.Native.String.{String}
use myapue.Base.{
  ℕ, zero, suc, ◌==◌, if◌then◌else◌, List, [], ◌≡◌, ◌≢◌, ◌⊎◌, inl, inr, refl, arith, ◌∷◌,
  Bool-cases,
}
use myapue.Posix.{
  Os, Prog, Trace, Status, nonneg, minus_one, pure, ◌>>=◌, ◌>>◌, call, print, failed, ok, fail,
  Call, Answer, Outcome, returns, exits, execs, faults, spins, bind_post, then_run,
}
use myapue.Posix.Ledger.{failures}
use myapue.Signals.State.{sigint, sigquit, sigchld, Initial, action, mask, ReportsOld}
use myapue.Signals.System.{system, eintr}
use myapue.Signals.System.Restores.{Ends, IsRestored, system-Ends}

-- The handler's number.
abbrev pub sig_child_handler : ℕ
sig_child_handler = 2

-- errno ECHILD
abbrev pub echild : ℕ
echild = 10

-- The first argument of waitpid, -1, for any child.
abbrev pub any_child : ℕ
any_child = 4294967295

abbrev pub message_for : ℕ → String → String
message_for e message = if e == echild then "ECHILD" else message

module _ (os : Os) where
  -- What a round does with the answer of waitpid; `again` is the rest of the loop.
  pub reap_next : (String → Prog Status) → String → Answer → Prog Status
  reap_next again message (ok pid out) = pure (nonneg pid)
  reap_next again message (fail e) = do
    print os (message_for e message)
    if e == eintr then again (message_for e message) else pure minus_one

  -- The loop, with fuel for its rounds: what waitpid has returned at last.
  pub reap : ℕ → String → Prog Status
  unfolding reap_next
  reap zero message t = (spins, t)
  reap (suc fuel) message t =
      reap_next (reap fuel) message (os t (Call.waitpid any_child))
        ((Call.waitpid any_child, os t (Call.waitpid any_child)) ∷ t)

  -- The message behind the loop.
  pub tell : Status → Prog (Unit {0})
  tell (nonneg zero) = do print os "pid == 0"; pure tt
  tell (nonneg (suc pid)) = do print os "pid != 0"; pure tt
  tell minus_one = do print os "pid != 0"; pure tt

  pub sig_child : ℕ → Prog (Unit {0})
  unfolding reap tell
  sig_child fuel = do print os "sig_child"; pid ← reap fuel "sig_child"; tell pid

  -- What main does with what system returns.
  pub finish : Status → Prog Status
  finish minus_one = do print os "error"; pure minus_one
  finish (nonneg n) = pure (nonneg 0)

  pub main : ℕ → Prog Status
  unfolding finish
  main fuel = do
    a ← call os (Call.sigaction sigchld sig_child_handler)
    if failed a
        then (do print os "sigaction error"; pure minus_one)
        else (do status ← system os fuel "ls"; finish status)

-- How many children the trace has waited for.
abbrev pub reaped : Trace → ℕ
reaped [] = 0
reaped ((Call.waitpid _, Answer.ok _ _) ∷ t) = suc (reaped t)
reaped (_ ∷ t) = reaped t

-- What the loop may leave, where `before` children have been waited for before it: its latest
-- waitpid has succeeded or failed with an error other than EINTR.
abbrev pub Reaps : ℕ → Outcome Status → Trace → Type 0
Reaps before (returns (nonneg n)) ((Call.waitpid p, Answer.ok pid out) ∷ t) =
    (n ≡ pid) × (reaped t ≡ before)
Reaps before (returns minus_one) ((Call.report m, _) ∷ (Call.waitpid p, Answer.fail e) ∷ t) =
    (e ≢ eintr) × (reaped t ≡ before)
Reaps before spins t = reaped t ≡ before
Reaps before _ t = ⊥

reap_next-Reaps :
    (os : Os) (before : ℕ) (again : String → Prog Status) (message : String) (a : Answer)
    (t : Trace)
    → reaped t ≡ before
    → ((m : String) (u : Trace) → reaped u ≡ before → Reaps before (again m u).0 (again m u).1)
    → let run = reap_next os again message a ((Call.waitpid any_child, a) ∷ t) in
      Reaps before run.0 run.1
unfolding reap_next
reap_next-Reaps os before again message (ok pid out) t e later = (refl, e)
reap_next-Reaps os before again message (fail n) t e later = elim (Bool-cases (n == eintr)) [
  | inl interrupted ↦ rw interrupted (
      later (message_for n message)
        ((
          Call.report (message_for n message),
          os ((Call.waitpid any_child, fail n) ∷ t) (Call.report (message_for n message)),
        )
          ∷ (Call.waitpid any_child, fail n)
          ∷ t)
        e)
  | inr other ↦ rw other (ground (arith, other), e)
]

reap-Reaps :
    (os : Os) (before fuel : ℕ) (message : String) (t : Trace)
    → reaped t ≡ before
    → let run = reap os fuel message t in Reaps before run.0 run.1
unfolding reap
reap-Reaps os before zero message t e = e
reap-Reaps os before (suc fuel) message t e =
    reap_next-Reaps os before (reap os fuel) message (os t (Call.waitpid any_child)) t e
      (λ m u k. reap-Reaps os before fuel m u k)

-- How main may end.
abbrev pub MainEnds : Initial → ℕ → ℕ → List ℕ → ℕ → Outcome Status → Trace → Type 0
MainEnds initial i q m errors (returns (nonneg n)) t' =
    (n ≡ 0) × IsRestored initial i q m t' × (failures t' ≡ errors)
MainEnds initial i q m errors (returns minus_one) t' =
    IsRestored initial i q m t' ⊎ (failures t' ≡ suc errors)
MainEnds initial i q m errors (execs c) t' =
    (c ≡ "ls") × IsRestored initial i q m t' × (failures t' ≡ errors)
MainEnds initial i q m errors (exits n) t' = (n ≡ minus_one) × (failures t' ≡ suc errors)
MainEnds initial i q m errors faults t' = ⊥
MainEnds initial i q m errors spins t' = Unit

module _ (initial : Initial) (os : Os) (i q : ℕ) (m : List ℕ) (errors : ℕ) where
  finish-MainEnds :
      (status : Status) (t : Trace)
      → Ends initial i q m errors "ls" (returns status) t
      → let run = finish os status t in MainEnds initial i q m errors run.0 run.1
  unfolding finish
  finish-MainEnds minus_one t (inl h) = inl (record {
    int_action = h.0.int_action;
    quit_action = h.0.quit_action;
    same_mask = h.0.same_mask;
  })
  finish-MainEnds minus_one t (inr h) = inr (ground (arith, h))
  finish-MainEnds (nonneg n) t (inl h) = (refl, h.0, h.1)
  finish-MainEnds (nonneg n) t (inr h) = cc

  -- What system leaves is what main leaves.
  system-MainEnds :
      (run : Outcome Status × Trace)
      → Ends initial i q m errors "ls" run.0 run.1
      → let whole = then_run run (finish os) in MainEnds initial i q m errors whole.0 whole.1
  system-MainEnds =
      bind_post (Ends initial i q m errors "ls") (MainEnds initial i q m errors) (finish os)
        (λ s t h. finish-MainEnds s t h) (λ n t h. h) (λ c t h. h) (λ t h. h) (λ t h. tt)

-- Where sigaction and sigprocmask report the old values: where main returns 0, no call has failed, and
-- the dispositions of SIGINT and SIGQUIT and the mask are those of the start; where it returns -1,
-- they are too, or one call has failed. The shell runs the command "ls" with them as they were, and
-- a process ends by exit only with -1, after a failed call.
pub main-MainEnds :
    (initial : Initial) (os : Os)
    → ReportsOld initial os
    → (fuel : ℕ) (t : Trace)
    → let run = main os fuel t in
      MainEnds initial
        (action initial t sigint)
        (action initial t sigquit)
        (mask initial t)
        (failures t)
        run.0
        run.1
unfolding main
main-MainEnds initial os reports fuel t = answered (os t (Call.sigaction sigchld sig_child_handler))
  where
    answered :
        (a : Answer)
        → let u : Trace = (Call.sigaction sigchld sig_child_handler, a) ∷ t in
          let run =
            (if failed a
                then (do print os "sigaction error"; pure minus_one)
                else (do status ← system os fuel "ls"; finish os status))
              u in
          MainEnds initial
            (action initial t sigint)
            (action initial t sigquit)
            (mask initial t)
            (failures t)
            run.0
            run.1
    answered (ok v out) =
        let u : Trace = (Call.sigaction sigchld sig_child_handler, ok v out) ∷ t in
        system-MainEnds initial os _ _ _ _ (system os fuel "ls" u)
          (system-Ends initial os reports fuel "ls" u)
    answered (fail e) = inr (ground arith)
