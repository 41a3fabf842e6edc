-- ===== src/Daemon/Reread.antt =====
-- What 13.deamons/02_reread1.c adds to the daemon: a thread that waits for signals.
use Prim.Native.String.{String}
use myapue.Base.{
  subst, not, inl, inr, Bool-cases, ℕ, zero, suc, ◌+◌, ◌==◌, if◌then◌else◌, ◌||◌, ◌⊎◌, Bool, true,
  false, ◌≡◌, ◌<◌, refl, arith, List, [], ◌∷◌, get_or,
}
use myapue.Posix.{Os, Prog, Trace, Status, nonneg, minus_one, exit, ◌>>=◌, ◌>>◌, call}
use myapue.Posix.{
  out_of, failed, faults, Call, Answer, Outcome, returns, exits, spins, bind_post, then_run,
}
use myapue.Posix.Ledger.{failures}
use myapue.Daemon.{fork_away, in_child, settle, sighup, sig_dfl}
use myapue.Daemon.Table.{table, LowestFree}
use myapue.Daemon.Detach.{Locks, IsStamped, IsTooLong}
use myapue.Daemon.Ends.{IsLimited, settle-Locks}

abbrev pub sigint : ℕ
sigint = 2

abbrev pub sigterm : ℕ
sigterm = 15

-- The signal that sigwait stores.
abbrev pub signal_of : Answer → ℕ
signal_of a = get_or (out_of a) 0 0

module _ (os : Os) where
  -- The switch of a round; reread does nothing, and `again` is the rest of the loop.
  pub dispatch : Prog (Unit {0}) → ℕ → Prog (Unit {0})
  dispatch again signal =
      if signal == sighup
      then again
      else if signal == sigint || signal == sigterm
      then exit (nonneg 1)
      else again

  -- The loop of the thread, for a number of rounds.
  pub thread_function : ℕ → Prog (Unit {0})
  unfolding dispatch
  thread_function zero t = (spins, t)
  thread_function (suc rounds) t =
      dispatch (thread_function rounds) (signal_of (os t Call.sigwait))
        ((Call.sigwait, os t Call.sigwait) ∷ t)

  -- The process once its thread has been asked for: all signals are blocked, so that the pause of
  -- main never returns, and the thread's loop is what goes on, where there is a thread.
  pub serve : ℕ → Answer → Prog (Unit {0})
  unfolding thread_function
  serve rounds (Answer.ok v out) t = thread_function rounds t
  serve rounds (Answer.fail e) t = (spins, t)

  -- The rest of daemonize, after already_running.
  pub start_thread : ℕ → Prog (Unit {0})
  unfolding serve
  start_thread rounds = do
    call os (Call.sigaction sighup sig_dfl)
    call os Call.block_all
    p ← call os Call.pthread_create
    serve rounds p

  pub daemonize : ℕ → String → Prog (Unit {0})
  daemonize rounds cmd = do c ← fork_away os; in_child os (do settle os cmd; start_thread rounds) c

-- The signals that end the process.
abbrev pub is_final : Answer → Bool
is_final a = signal_of a == sigint || signal_of a == sigterm

-- A daemon that holds its lock has reset SIGHUP, blocked the signals and asked for the thread, in this
-- order, where `made` says whether it has got it.
abbrev pub HasStarted : List ℕ → Bool → Trace → Type 0
HasStarted initial made
      ((Call.pthread_create, p) ∷ (Call.block_all, _) ∷ (Call.sigaction signo handler, _) ∷ t) =
    (failed p ≡ not made)
    × (table initial t ≡ 3 ∷ 2 ∷ 1 ∷ 0 ∷ [])
    × IsStamped t
    × (signo ≡ sighup)
    × (handler ≡ sig_dfl)
HasStarted initial made _ = ⊥

-- Behind that, so many signals have come, none of them final.
abbrev pub IsServing : List ℕ → ℕ → Trace → Type 0
IsServing initial (suc heard) ((Call.sigwait, a) ∷ t) =
    (is_final a ≡ false) × IsServing initial heard t
IsServing initial zero t = HasStarted initial true t
IsServing initial _ t = ⊥

-- How the process may end, or be after a number of signals.
abbrev pub Serves : List ℕ → ℕ → Outcome (Unit {0}) → Trace → Type 0
Serves initial rounds spins t' = IsServing initial rounds t' ⊎ HasStarted initial false t'
Serves initial rounds (returns _) ((Call.fork, Answer.fail _) ∷ t') = table initial t' ≡ initial
Serves initial rounds (exits (nonneg n)) ((Call.fork, Answer.ok pid _) ∷ t') = (n ≡ 0) × (0 < pid)
Serves initial rounds (exits (nonneg n)) ((Call.sigwait, a) ∷ t') =
    (n ≡ 1) × (is_final a ≡ true) × ((heard : ℕ) × (heard < rounds) × IsServing initial heard t')
Serves initial rounds (exits minus_one) t' = 0 < failures t'
Serves initial rounds faults t' = IsTooLong t'
Serves initial rounds _ t' = ⊥

-- A round of the thread, where sigwait has answered `a`.
dispatch-Serves :
    (os : Os) (initial : List ℕ) (all heard : ℕ) (a : Answer) (again : Prog (Unit {0})) (t : Trace)
    → IsServing initial heard t
    → heard < all
    → (let u : Trace = (Call.sigwait, a) ∷ t in
        is_final a ≡ false → Serves initial all (again u).0 (again u).1)
    → let run = dispatch os again (signal_of a) ((Call.sigwait, a) ∷ t) in
      Serves initial all run.0 run.1
unfolding dispatch
dispatch-Serves os initial all heard a again t serving early later =
    elim (Bool-cases (signal_of a == sighup)) [
      | inl hup ↦ let calm : is_final a ≡ false = ground (arith, hup) in rw hup (later calm)
      | inr other ↦ rw other (elim (Bool-cases (is_final a)) [
        | inl ends ↦ rw ends (refl, ends, (heard, early, serving))
        | inr calm ↦ rw calm (later calm)
      ])
    ]

thread_function-Serves :
    (os : Os) (initial : List ℕ) (rounds heard all : ℕ) (t : Trace)
    → rounds + heard ≡ all
    → IsServing initial heard t
    → let run = thread_function os rounds t in Serves initial all run.0 run.1
unfolding thread_function
thread_function-Serves os initial zero heard all t e serving =
    let same : heard ≡ all = omega (arith, e) in
    inl (subst (λ n. IsServing initial n t) same serving)
thread_function-Serves os initial (suc rounds) heard all t e serving =
    dispatch-Serves os initial all heard (os t Call.sigwait) (thread_function os rounds) t serving
      (omega (arith, e))
      (λ calm.
        thread_function-Serves os initial rounds (suc heard) all
          ((Call.sigwait, os t Call.sigwait) ∷ t) (omega (arith, e)) (calm, serving))

serve-Serves :
    (os : Os) (initial : List ℕ) (rounds : ℕ) (p : Answer) (t : Trace)
    → HasStarted initial (not (failed p)) t
    → let run = serve os rounds p t in Serves initial rounds run.0 run.1
unfolding serve
serve-Serves os initial rounds (Answer.ok v out) t started =
    thread_function-Serves os initial rounds 0 rounds t (omega arith) started
serve-Serves os initial rounds (Answer.fail e) t started = inr started

thread-Serves :
    (initial : List ℕ) (os : Os) (errors rounds : ℕ) (run : Outcome (Unit {0}) × Trace)
    → Locks initial errors run.0 run.1
    → let whole = then_run run (λ _. start_thread os rounds) in
      Serves initial rounds whole.0 whole.1
unfolding start_thread
thread-Serves initial os errors rounds =
    bind_post (Locks initial errors) (Serves initial rounds) (λ _. start_thread os rounds) normal
      exited (λ c t h. absurd h) (λ t h. h) (λ t h. absurd h)
  where
    normal :
        (a : Unit {0}) (t : Trace)
        → Locks initial errors (returns a) t
        → let run = start_thread os rounds t in Serves initial rounds run.0 run.1
    normal a t h =
        let u : Trace = (Call.sigaction sighup sig_dfl, os t (Call.sigaction sighup sig_dfl)) ∷ t in
        let v : Trace = (Call.block_all, os u Call.block_all) ∷ u in
        let p = os v Call.pthread_create in
        let known : failed p ≡ not (not (failed p)) = ground arith in
        serve-Serves os initial rounds p ((Call.pthread_create, p) ∷ v)
          (known, h.0, h.1, refl, refl)

    exited :
        (n : Status) (t : Trace)
        → Locks initial errors (exits n) t
        → Serves initial rounds (exits n) t
    exited minus_one t h = omega (arith, h.1)
    exited (nonneg n) t h = cc

-- How the part before the branches may end.
abbrev pub Starts : List ℕ → Outcome Bool → Trace → Type 0
Starts initial (returns true) t' = table initial t' ≡ initial
Starts initial (returns false) ((Call.fork, Answer.fail _) ∷ t') = table initial t' ≡ initial
Starts initial (exits (nonneg n)) ((Call.fork, Answer.ok pid _) ∷ t') = (n ≡ 0) × (0 < pid)
Starts initial _ t' = ⊥

pub fork_away-Starts :
    (initial : List ℕ) (os : Os) → let run = fork_away os [] in Starts initial run.0 run.1
unfolding fork_away
fork_away-Starts initial os = ground arith

Serves-of_exit :
    (initial : List ℕ) (rounds : ℕ) (n : Status) (t : Trace)
    → Starts initial (exits n) t
    → Serves initial rounds (exits n) t
Serves-of_exit initial rounds n t h = ground arith

Serves-of_failed_fork :
    (initial : List ℕ) (rounds : ℕ) (t : Trace)
    → Starts initial (returns false) t
    → Serves initial rounds (returns tt) t
Serves-of_failed_fork initial rounds t h = ground arith

-- A process that calls daemonize of 02_reread1.c, with its descriptors below the limit that
-- getrlimit reports and with open and dup returning the lowest free number, goes one of six ways,
-- signals that come before it waits for them left aside. Its
-- thread has waited for as many signals as rounds are given, none of them SIGINT or SIGTERM, or
-- there is no thread, and it pauses for good, in both cases behind the calls that reset SIGHUP,
-- block the signals and ask for the thread, in this order, with exactly the descriptors 0, 1, 2 and
-- 3 open, behind the open and the lock of the lock file, both with success, an ftruncate with 0
-- and a write of what sprintf makes of its number, all on one descriptor; the thread ends it with 1, right after the first SIGINT or
-- SIGTERM, all that having been done before; it returns with its descriptors as they were, fork
-- having just failed; it exits with 0, as the parent of a fork that succeeded; it exits with -1,
-- and then some call has failed; or it writes past the 16 bytes for its number, where sprintf has
-- made 16 characters or more of it.
pub reread-Serves :
    (initial : List ℕ) (os : Os)
    → LowestFree initial os
    → IsLimited initial os
    → (rounds : ℕ) (cmd : String)
    → let run = daemonize os rounds cmd [] in Serves initial rounds run.0 run.1
unfolding daemonize in_child
reread-Serves initial os low limited rounds cmd =
    bind_post (Starts initial) (Serves initial rounds)
      (in_child os (do settle os cmd; start_thread os rounds)) normal
      (λ n t h. Serves-of_exit initial rounds n t h) (λ c t h. absurd h) (λ t h. absurd h)
      (λ t h. absurd h) (fork_away os []) (fork_away-Starts initial os)
  where
    normal :
        (child : Bool) (t : Trace)
        → Starts initial (returns child) t
        → let run = in_child os (do settle os cmd; start_thread os rounds) child t in
          Serves initial rounds run.0 run.1
    normal true t h =
        thread-Serves initial os (failures t) rounds (settle os cmd t)
          (settle-Locks initial os low limited cmd t h)
    normal false t h = Serves-of_failed_fork initial rounds t h
