-- ===== src/Signals/System/Restores.antt =====
-- system: what it does to the dispositions of SIGINT and SIGQUIT and to the mask.
use Prim.Native.String.{String}
use myapue.Base.{
  ℕ, zero, suc, ◌==◌, ◌⊎◌, ◌≡◌, ◌∙◌, refl, arith, List, ◌∷◌, Bool-cases, inl, inr, ap,
}
use myapue.Posix.{Os, Trace, Status, minus_one}
use myapue.Posix.{ok, fail, Call, Answer, Outcome, returns, exits, execs, faults, spins, bind_post}
use myapue.Posix.Ledger.{failures}
use myapue.Signals.State.{sig_ign, sigint, sigquit, sigchld, Initial, action, mask, ReportsOld}
use myapue.Signals.System.{
  Prepared, forked, refused, prepare, child, wait_next, wait_for, restore, parent, continue, system,
  eintr,
}

-- The signal state of a trace is the given one.
pub record IsRestored (initial : Initial) (i q : ℕ) (m : List ℕ) (t : Trace) : Type 0 where
  pub int_action : action initial t sigint ≡ i
  pub quit_action : action initial t sigquit ≡ q
  pub same_mask : mask initial t ≡ m

module _ (initial : Initial) (os : Os) (reports : ReportsOld initial os) where
  -- How `prepare` may end.
  abbrev Prepares : Trace → Outcome Prepared → Trace → Type 0
  Prepares t (returns (forked i q m pid)) t' =
      (i ≡ action initial t sigint)
      × (q ≡ action initial t sigquit)
      × (m ≡ mask initial t)
      × (failures t' ≡ failures t)
  Prepares t (returns refused) t' = failures t' ≡ suc (failures t)
  Prepares t _ t' = ⊥

  prepare-Prepares : (t : Trace) → let run = prepare os t in Prepares t run.0 run.1
  unfolding prepare
  prepare-Prepares t =
      let t₁ : Trace = (Call.sigaction sigint sig_ign, os t (Call.sigaction sigint sig_ign)) ∷ t in
      let t₂ : Trace =
        (Call.sigaction sigquit sig_ign, os t₁ (Call.sigaction sigquit sig_ign)) ∷ t₁ in
      let t₃ : Trace = (Call.sigaddset sigchld, os t₂ (Call.sigaddset sigchld)) ∷ t₂ in
      ground (
        arith,
        reports.old_action t sigint sig_ign,
        reports.old_action t₁ sigquit sig_ign,
        reports.old_mask t₃ sigchld,
      )

-- How the child may end: the command runs with the dispositions and the mask given.
abbrev ChildEnds : Initial → ℕ → ℕ → List ℕ → String → Trace → Outcome Status → Trace → Type 0
ChildEnds initial i q m command t (execs c) t' =
    (c ≡ command) × IsRestored initial i q m t' × (failures t' ≡ failures t)
ChildEnds initial i q m command t (exits n) t' = (n ≡ minus_one) × (failures t' ≡ suc (failures t))
ChildEnds initial i q m command t _ t' = ⊥

child-Ends :
    (initial : Initial) (os : Os) (i q : ℕ) (m : List ℕ) (command : String) (t : Trace)
    → let run = child os i q m command t in ChildEnds initial i q m command t run.0 run.1
unfolding child
child-Ends initial os i q m command t = ground arith

-- How the loop may end; an interrupted call is no failure.
abbrev Waits : Trace → Outcome Status → Trace → Type 0
Waits t (returns s) t' = failures t' ≡ failures t
Waits t spins t' = Unit
Waits t _ t' = ⊥

Waits-of_failures :
    (t u : Trace)
    → failures u ≡ failures t
    → (o : Outcome Status) (v : Trace) → Waits u o v
    → Waits t o v
Waits-of_failures t u e (returns s) v h = h ∙ e
Waits-of_failures t u e (exits _) v h = h
Waits-of_failures t u e (execs _) v h = h
Waits-of_failures t u e faults v h = h
Waits-of_failures t u e spins v h = h

wait_for-Waits :
    (os : Os) (fuel pid : ℕ) (t : Trace) → let run = wait_for os fuel pid t in Waits t run.0 run.1
unfolding wait_for
wait_for-Waits os zero pid t = tt
wait_for-Waits os (suc fuel) pid t = answered (os t (Call.waitpid pid)) (wait_for-Waits os fuel pid)
  where
    answered :
        (a : Answer)
        → ((u : Trace) → Waits u (wait_for os fuel pid u).0 (wait_for os fuel pid u).1)
        → let run = wait_next os (wait_for os fuel pid) a ((Call.waitpid pid, a) ∷ t) in
          Waits t run.0 run.1
    answered (ok v out) ih = refl
    answered (fail e) ih = elim (Bool-cases (e == eintr)) [
      | inl yes_eintr ↦ rw yes_eintr (
          Waits-of_failures t ((Call.waitpid pid, fail e) ∷ t) refl
            (wait_for os fuel pid ((Call.waitpid pid, fail e) ∷ t)).0
            (wait_for os fuel pid ((Call.waitpid pid, fail e) ∷ t)).1
            (ih ((Call.waitpid pid, fail e) ∷ t)))
      | inr other ↦ rw other refl
    ]

-- How the rest of the parent may end.
abbrev Restores : Initial → ℕ → ℕ → List ℕ → Status → Trace → Outcome Status → Trace → Type 0
Restores initial i q m status t (returns n) t' =
    ((n ≡ status) × IsRestored initial i q m t' × (failures t' ≡ failures t))
    ⊎ ((n ≡ minus_one) × (failures t' ≡ suc (failures t)))
Restores initial i q m status t (exits n) t' = (n ≡ minus_one) × (failures t' ≡ suc (failures t))
Restores initial i q m status t _ t' = ⊥

restore-Restores :
    (initial : Initial) (os : Os) (i q : ℕ) (m : List ℕ) (status : Status) (t : Trace)
    → let run = restore os i q m status t in Restores initial i q m status t run.0 run.1
unfolding restore
restore-Restores initial os i q m status t = ground arith

-- How system may end, in a process that began with the dispositions `i` of SIGINT and `q` of
-- SIGQUIT, the mask `m`, and `errors` failed calls.
abbrev pub Ends : Initial → ℕ → ℕ → List ℕ → ℕ → String → Outcome Status → Trace → Type 0
Ends initial i q m errors command (returns n) t' =
    (IsRestored initial i q m t' × (failures t' ≡ errors))
    ⊎ ((n ≡ minus_one) × (failures t' ≡ suc errors))
Ends initial i q m errors command (execs c) t' =
    (c ≡ command) × IsRestored initial i q m t' × (failures t' ≡ errors)
Ends initial i q m errors command (exits n) t' = (n ≡ minus_one) × (failures t' ≡ suc errors)
Ends initial i q m errors command faults t' = ⊥
Ends initial i q m errors command spins t' = Unit

module _ (initial : Initial) (os : Os) (i q : ℕ) (m : List ℕ) (command : String) where
  Ends-of_child :
      (t : Trace) (o : Outcome Status) (v : Trace)
      → ChildEnds initial i q m command t o v
      → Ends initial i q m (failures t) command o v
  Ends-of_child t (returns _) v h = absurd h
  Ends-of_child t (exits _) v h = h
  Ends-of_child t (execs _) v h = h
  Ends-of_child t faults v h = h
  Ends-of_child t spins v h = absurd h

  Ends-of_restore :
      (t u : Trace)
      → failures u ≡ failures t
      → (status : Status) (o : Outcome Status) (v : Trace) → Restores initial i q m status u o v
      → Ends initial i q m (failures t) command o v
  Ends-of_restore t u e status (returns n) v (inl h) = inl (h.1, h.2 ∙ e)
  Ends-of_restore t u e status (returns n) v (inr h) = inr (h.0, h.1 ∙ ap suc e)
  Ends-of_restore t u e status (exits _) v h = (h.0, h.1 ∙ ap suc e)
  Ends-of_restore t u e status (execs _) v h = absurd h
  Ends-of_restore t u e status faults v h = h
  Ends-of_restore t u e status spins v h = absurd h

  parent-Ends :
      (fuel pid : ℕ) (t : Trace)
      → let run = parent os fuel i q m pid t in Ends initial i q m (failures t) command run.0 run.1
  unfolding parent
  parent-Ends fuel pid t =
      bind_post (Waits t) (Ends initial i q m (failures t) command) (restore os i q m)
        (λ status u e.
          Ends-of_restore t u e status (restore os i q m status u).0 (restore os i q m status u).1
            (restore-Restores initial os i q m status u))
        (λ n u h. absurd h) (λ c u h. absurd h) (λ u h. h) (λ u h. tt) (wait_for os fuel pid t)
        (wait_for-Waits os fuel pid t)

  continue-Ends :
      (fuel pid : ℕ) (t : Trace)
      → let run = continue os fuel command (forked i q m pid) t in
        Ends initial i q m (failures t) command run.0 run.1
  unfolding continue
  continue-Ends fuel pid t = elim (Bool-cases (pid == 0)) [
    | inl in_child ↦ rw in_child (
        Ends-of_child t (child os i q m command t).0 (child os i q m command t).1
          (child-Ends initial os i q m command t))
    | inr in_parent ↦ rw in_parent (parent-Ends fuel pid t)
  ]

-- Where sigaction and sigprocmask report the old values, a call of system that returns has put
-- the dispositions of SIGINT and SIGQUIT and the signal mask back as they were before it, or it
-- returns -1 after a call that failed; the shell that runs the command in the child has them as
-- before too. A process ends by exit only with -1, after a failed call.
pub system-Ends :
    (initial : Initial) (os : Os)
    → ReportsOld initial os
    → (fuel : ℕ) (command : String) (t : Trace)
    → let run = system os fuel command t in
      Ends initial
        (action initial t sigint)
        (action initial t sigquit)
        (mask initial t)
        (failures t)
        command
        run.0
        run.1
unfolding system
system-Ends initial os reports fuel command t =
    bind_post (Prepares initial os reports t)
      (Ends initial (action initial t sigint) (action initial t sigquit) (mask initial t)
        (failures t) command)
      (continue os fuel command) prepared (λ n u h. absurd h) (λ c u h. absurd h) (λ u h. h)
      (λ u h. tt) (prepare os t) (prepare-Prepares initial os reports t)
  where
    prepared :
        (p : Prepared) (u : Trace)
        → Prepares initial os reports t (returns p) u
        → let run = continue os fuel command p u in
          Ends initial
            (action initial t sigint)
            (action initial t sigquit)
            (mask initial t)
            (failures t)
            command
            run.0
            run.1
    prepared refused u h = unfold continue in inr (refl, h)
    prepared (forked i q m pid) u h =
        rw (← h.0, ← h.1, ← h.2, ← h.3) (continue-Ends initial os i q m command fuel pid u)
