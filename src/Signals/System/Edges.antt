-- ===== src/Signals/System/Edges.antt =====
-- system: when its loop ends, and what a failure of fork leaves behind.
use Prim.Native.String.{String}
use myapue.Base.{ℕ, zero, suc, ◌==◌, ◌⊎◌, true, false, ◌≡◌, arith, ◌∷◌, ◌&&◌, inl, inr, Bool-cases}
use myapue.Posix.{Os, Prog, Trace, Status, minus_one, failed, errno_of}
use myapue.Posix.{ok, fail, Call, Answer, Outcome, returns}
use myapue.Signals.State.{sig_ign, sigint, sigquit, sigchld, Initial, action, mask}
use myapue.Signals.System.{wait_next, wait_for, system, prepare, continue, eintr}

-- Every call that system makes before fork succeeds, and fork fails.
pub record ForkFails (os : Os) : Type 0 where
  pub sets_action : (t : Trace) (s h : ℕ) → failed (os t (Call.sigaction s h)) ≡ false
  pub adds : (t : Trace) (s : ℕ) → failed (os t (Call.sigaddset s)) ≡ false
  pub blocks : (t : Trace) (s : ℕ) → failed (os t (Call.block s)) ≡ false
  pub no_fork : (t : Trace) → failed (os t Call.fork) ≡ true

-- What is left behind.
abbrev pub IsLeftIgnoring : Initial → Trace → Outcome Status → Trace → Type 0
IsLeftIgnoring initial t (returns n) t' =
    (n ≡ minus_one)
    × (action initial t' sigint ≡ sig_ign)
    × (action initial t' sigquit ≡ sig_ign)
    × (mask initial t' ≡ sigchld ∷ mask initial t)
IsLeftIgnoring initial t _ t' = ⊥

-- When fork fails, system returns -1 with SIGINT and SIGQUIT still ignored and SIGCHLD still
-- blocked in the caller: nothing is restored on this path.
pub system-ForkFails :
    (initial : Initial) (os : Os)
    → ForkFails os
    → (fuel : ℕ) (command : String) (t : Trace)
    → let run = system os fuel command t in IsLeftIgnoring initial t run.0 run.1
unfolding system prepare continue
system-ForkFails initial os fails fuel command t =
    let t₁ : Trace = (Call.sigaction sigint sig_ign, os t (Call.sigaction sigint sig_ign)) ∷ t in
    let t₂ : Trace =
      (Call.sigaction sigquit sig_ign, os t₁ (Call.sigaction sigquit sig_ign)) ∷ t₁ in
    let t₃ : Trace = (Call.sigaddset sigchld, os t₂ (Call.sigaddset sigchld)) ∷ t₂ in
    let t₄ : Trace = (Call.block sigchld, os t₃ (Call.block sigchld)) ∷ t₃ in
    ground (
      arith,
      fails.sets_action t sigint sig_ign,
      fails.sets_action t₁ sigquit sig_ign,
      fails.adds t₂ sigchld,
      fails.blocks t₃ sigchld,
      fails.no_fork t₄,
    )

-- At most `n` calls of waitpid in a row are interrupted.
abbrev pub Settles : Os → ℕ → ℕ → Trace → Type 0
Settles os pid zero t =
    failed (os t (Call.waitpid pid)) && (errno_of (os t (Call.waitpid pid)) == eintr) ≡ false
Settles os pid (suc n) t =
    (failed (os t (Call.waitpid pid)) && (errno_of (os t (Call.waitpid pid)) == eintr) ≡ false)
    ⊎ Settles os pid n ((Call.waitpid pid, os t (Call.waitpid pid)) ∷ t)

abbrev pub HasReturned : Outcome Status → Type 0
HasReturned (returns n) = Unit
HasReturned _ = ⊥

settled :
    (os : Os) (rest : Prog Status) (a : Answer) (t : Trace)
    → failed a && (errno_of a == eintr) ≡ false
    → HasReturned (wait_next os rest a t).0
unfolding wait_next
settled os rest (ok v out) t h = tt
settled os rest (fail e) t h = rw h tt

again :
    (os : Os) (rest : Prog Status) (a : Answer) (t : Trace)
    → HasReturned (rest t).0
    → HasReturned (wait_next os rest a t).0
unfolding wait_next
again os rest (ok v out) t h = tt
again os rest (fail e) t h = elim (Bool-cases (e == eintr)) [
  | inl interrupted ↦ rw interrupted h
  | inr other ↦ rw other tt
]

-- The loop on waitpid ends: if at most `n` calls in a row are interrupted by a signal, fuel for
-- n + 1 rounds is enough for it to return.
pub wait_for-HasReturned :
    (os : Os) (pid n : ℕ) (t : Trace)
    → Settles os pid n t
    → HasReturned (wait_for os (suc n) pid t).0
unfolding wait_for
wait_for-HasReturned os pid zero t h = settled os (wait_for os 0 pid) (os t (Call.waitpid pid)) _ h
wait_for-HasReturned os pid (suc n) t (inl h) =
    settled os (wait_for os (suc n) pid) (os t (Call.waitpid pid)) _ h
wait_for-HasReturned os pid (suc n) t (inr h) =
    again os (wait_for os (suc n) pid) (os t (Call.waitpid pid)) _
      (wait_for-HasReturned os pid n ((Call.waitpid pid, os t (Call.waitpid pid)) ∷ t) h)
