-- ===== src/Daemon/Ends.antt =====
-- daemonize of 01_daemonize.c as a whole: how the process that calls it may end.
use Prim.Native.String.{String}
use myapue.Base.{ℕ, ◌≤◌, ◌<◌, Bool, true, false, ◌≡◌, arith, List, [], ◌∷◌, Option, none, some}
use myapue.Posix.{Os, Trace, Status, nonneg, minus_one, ◌>>◌}
use myapue.Posix.{Call, Answer, Outcome, returns, exits, execs, faults, spins, bind_post, then_run}
use myapue.Posix.Ledger.{failures, failures-le}
use myapue.Daemon.{
  fork_away, in_child, settle, wait_signal, daemonize, start_up, lock_down, open_null, close_from,
  fd_limit,
}
use myapue.Daemon.Table.{table, LowestFree, IsWithin, close_from-table}
use myapue.Daemon.Detach.{
  Locks, lock_down-Locks, OpensNull, open_null-OpensNull, IsStamped, IsTooLong,
}

start_up-Locks :
    (initial : List ℕ) (os : Os)
    → LowestFree initial os
    → (cmd : String) (t : Trace) → table initial t ≡ []
    → let run = start_up os cmd t in Locks initial (failures t) run.0 run.1
unfolding start_up
start_up-Locks initial os low cmd t empty =
    bind_post (OpensNull initial (failures t)) (Locks initial (failures t)) (λ _. lock_down os)
      (λ a u h. rw (← h.1) (lock_down-Locks initial os low u h.0)) (λ n u h. h) (λ c u h. h)
      (λ u h. absurd h) (λ u h. h) (open_null os cmd t)
      (open_null-OpensNull initial os low t empty cmd)

Locks-mono :
    (initial : List ℕ) (m n : ℕ)
    → n ≤ m
    → (o : Outcome (Unit {0})) (v : Trace) → Locks initial m o v
    → Locks initial n o v
Locks-mono initial m n l (returns _) v h = h
Locks-mono initial m n l (exits _) v h = (h.0, omega arith)
Locks-mono initial m n l (execs _) v h = h
Locks-mono initial m n l faults v h = h
Locks-mono initial m n l spins v h = h

-- Every descriptor that the process starts with lies below the limit that getrlimit reports.
abbrev pub IsLimited : List ℕ → Os → Type 0
IsLimited initial os = (t : Trace) → IsWithin 0 (fd_limit (os t Call.getrlimit)) initial

abbrev Closes : List ℕ → ℕ → Outcome (Unit {0}) → Trace → Type 0
Closes initial errors (returns _) t' = (table initial t' ≡ []) × (failures t' ≡ errors)
Closes initial errors _ t' = ⊥

pub settle-Locks :
    (initial : List ℕ) (os : Os)
    → LowestFree initial os
    → IsLimited initial os
    → (cmd : String) (t : Trace) → table initial t ≡ initial
    → let run = settle os cmd t in Locks initial (failures t) run.0 run.1
unfolding settle
settle-Locks initial os low limited cmd t start =
    bind_post (Closes initial (failures t₃)) (Locks initial (failures t)) (λ _. start_up os cmd)
      closed (λ n u h. absurd h) (λ c u h. absurd h) (λ u h. absurd h) (λ u h. h)
      (close_from os (fd_limit r) 0 t₃) all_closed
  where
    t₁ : Trace
    t₁ = (Call.setsid, os t Call.setsid) ∷ t

    t₂ : Trace
    t₂ = (Call.chdir "/", os t₁ (Call.chdir "/")) ∷ t₁

    r : Answer
    r = os t₂ Call.getrlimit

    t₃ : Trace
    t₃ = (Call.getrlimit, r) ∷ t₂

    grown : failures t ≤ failures t₃
    grown = omega (
      arith,
      failures-le Call.setsid (os t Call.setsid) t,
      failures-le (Call.chdir "/") (os t₁ (Call.chdir "/")) t₁,
      failures-le Call.getrlimit r t₂,
    )

    all_closed :
        let run = close_from os (fd_limit r) 0 t₃ in Closes initial (failures t₃) run.0 run.1
    all_closed =
        let within : IsWithin 0 (fd_limit r) (table initial t₃) = rw start (limited t₂) in
        let c = close_from-table os initial (fd_limit r) 0 (fd_limit r) t₃ (omega arith) within in
        rw c.0 (c.1, c.2)

    closed :
        (a : Unit {0}) (u : Trace)
        → Closes initial (failures t₃) (returns a) u
        → let run = start_up os cmd u in Locks initial (failures t) run.0 run.1
    closed a u h =
        Locks-mono initial (failures u) (failures t) (omega (arith, h.1, grown))
          (start_up os cmd u).0 (start_up os cmd u).1 (start_up-Locks initial os low cmd u h.0)

-- What the latest fork answered.
abbrev pub latest_fork : Trace → Option Answer
latest_fork [] = none
latest_fork ((Call.fork, a) ∷ t) = some a
latest_fork ((c, a) ∷ t) = latest_fork t

-- How daemonize may end in a process that starts with the descriptors `initial`.
abbrev pub Ends : List ℕ → Outcome (Unit {0}) → Trace → Type 0
Ends initial spins ((Call.pause, _) ∷ t') = (table initial t' ≡ 3 ∷ 2 ∷ 1 ∷ 0 ∷ []) × IsStamped t'
Ends initial (returns _) ((Call.fork, Answer.fail _) ∷ t') = table initial t' ≡ initial
Ends initial (exits (nonneg n)) ((Call.fork, Answer.ok pid _) ∷ t') = (n ≡ 0) × (0 < pid)
Ends initial (exits minus_one) t' = 0 < failures t'
Ends initial faults t' = IsTooLong t'
Ends initial _ t' = ⊥

-- How the part before the branches may end.
abbrev Forks : List ℕ → Outcome Bool → Trace → Type 0
Forks initial (returns true) t' = table initial t' ≡ initial
Forks initial (returns false) t' = Ends initial (returns tt) t'
Forks initial (exits n) t' = Ends initial (exits n) t'
Forks initial _ t' = ⊥

fork_away-Forks :
    (initial : List ℕ) (os : Os) → let run = fork_away os [] in Forks initial run.0 run.1
unfolding fork_away
fork_away-Forks initial os = ground arith

finish :
    (initial : List ℕ) (os : Os) (errors : ℕ) (run : Outcome (Unit {0}) × Trace)
    → Locks initial errors run.0 run.1
    → let whole = then_run run (λ _. wait_signal os) in Ends initial whole.0 whole.1
unfolding wait_signal
finish initial os errors =
    bind_post (Locks initial errors) (Ends initial) (λ _. wait_signal os) (λ a t h. h) exited
      (λ c t h. absurd h) (λ t h. h) (λ t h. absurd h)
  where
    exited : (n : Status) (t : Trace) → Locks initial errors (exits n) t → Ends initial (exits n) t
    exited minus_one t h = omega (arith, h.1)
    exited (nonneg n) t h = cc

-- A process that calls daemonize, with its descriptors below the limit that getrlimit reports and
-- with open and dup returning the lowest free number, goes one of five ways, signals that
-- come before it waits for one left aside. It comes to pause, where it stays until a signal kills
-- it, with exactly the descriptors 0, 1, 2 and 3 open, right after it has opened the lock file and
-- locked it, both with success, and called ftruncate with 0 and write with what sprintf makes
-- of its number, all on one descriptor; it returns with its descriptors as they were, fork having just
-- failed; it exits with 0, as the parent of a fork that succeeded; it exits with -1, and then some
-- call has failed; or it writes past the 16 bytes for its number, where sprintf has made 16
-- characters or more of it.
pub daemonize-Ends :
    (initial : List ℕ) (os : Os)
    → LowestFree initial os
    → IsLimited initial os
    → (cmd : String) → let run = daemonize os cmd [] in Ends initial run.0 run.1
unfolding daemonize in_child
daemonize-Ends initial os low limited cmd =
    bind_post (Forks initial) (Ends initial) (in_child os (do settle os cmd; wait_signal os)) normal
      (λ n t h. h) (λ c t h. absurd h) (λ t h. absurd h) (λ t h. absurd h) (fork_away os [])
      (fork_away-Forks initial os)
  where
    normal :
        (child : Bool) (t : Trace)
        → Forks initial (returns child) t
        → let run = in_child os (do settle os cmd; wait_signal os) child t in
          Ends initial run.0 run.1
    normal true t h =
        finish initial os (failures t) (settle os cmd t)
          (settle-Locks initial os low limited cmd t h)
    normal false t h = h
