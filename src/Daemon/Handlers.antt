-- ===== src/Daemon/Handlers.antt =====
-- What 13.deamons/03_reread2.c adds to the daemon: handlers for SIGHUP and SIGTERM.
use Prim.Native.String.{String}
use myapue.Base.{
  ◌==◌, ◌&&◌, ◌||◌, not, if◌then◌else◌, zero, suc, ℕ, Bool, true, false, ◌≡◌, ◌<◌, List, [], ◌∷◌,
}
use myapue.Posix.{Os, Prog, Trace, nonneg, minus_one, exit, failed, ◌>>=◌, ◌>>◌, call}
use myapue.Posix.{Call, Answer, Outcome, returns, exits, spins, faults, Fate, back, killed, pure}
use myapue.Posix.Ledger.{failures}
use myapue.Daemon.{fork_away, settle, sighup}
use myapue.Daemon.Table.{table}
use myapue.Daemon.Detach.{IsStamped, IsTooLong}
use myapue.Daemon.Reread.{sigterm, signal_of}

-- The two handlers.
abbrev pub reread : ℕ
reread = 2

abbrev pub term : ℕ
term = 3

-- The handler of a signal, where sigaction has answered `h` for SIGHUP and `q` for SIGTERM; 0 where
-- none of the two runs.
abbrev pub handler_of : Answer → Answer → ℕ → ℕ
handler_of h q signo =
    if signo == sigterm && not (failed q)
    then term
    else if signo == sighup && not (failed h)
    then reread
    else 0

-- What the process does where a signal has come.
pub data Reaction : Type 0 where
  goes_on : Reaction
  runs_term : Reaction
  dies : Reaction

-- Of a signal without a handler, SIGHUP is still ignored; `is_deadly` says of the others whether the
-- default action ends the process.
pub react : (ℕ → Bool) → Answer → Answer → ℕ → Reaction
react is_deadly h q signo =
    let handler = handler_of h q signo in
    if handler == term
    then runs_term
    else if handler == reread || signo == sighup
    then goes_on
    else if is_deadly signo
    then dies
    else goes_on

module _ (os : Os) (is_deadly : ℕ → Bool) where
  -- term exits, and reread returns to the loop, of which `again` is the rest.
  pub run_handler : Prog Fate → ℕ → Reaction → Prog Fate
  run_handler again signo goes_on = again
  run_handler again signo runs_term = exit (nonneg 1)
  run_handler again signo dies = pure (killed signo)

  -- while (1) pause(), for a number of rounds. The answer to pause is the signal that has come; `h`
  -- and `q` are what sigaction has answered.
  pub pause_for : Answer → Answer → ℕ → Prog Fate
  unfolding run_handler react
  pause_for h q zero t = (spins, t)
  pause_for h q (suc rounds) t =
      let signo = signal_of (os t Call.pause) in
      run_handler (pause_for h q rounds) signo (react is_deadly h q signo)
        ((Call.pause, os t Call.pause) ∷ t)

  -- The rest of daemonize, after already_running.
  pub handle_signals : ℕ → Prog Fate
  unfolding pause_for
  handle_signals rounds = do
    h ← call os (Call.sigaction sighup reread)
    q ← call os (Call.sigaction sigterm term)
    pause_for h q rounds

  -- The branches on the answer of fork.
  pub branch : ℕ → String → Bool → Prog Fate
  branch rounds cmd true = do settle os cmd; handle_signals rounds
  branch rounds cmd false = pure back

  pub daemonize : ℕ → String → Prog Fate
  unfolding branch
  daemonize rounds cmd = do c ← fork_away os; branch rounds cmd c

-- What the signal of an answer to pause does.
abbrev pub reaction : (ℕ → Bool) → Answer → Answer → Answer → Reaction
reaction is_deadly h q a = react is_deadly h q (signal_of a)

-- The latest calls are pauses that have not ended the process, behind the installation of the two
-- handlers, which sigaction has answered with `h` and `q`, by a daemon that holds its lock.
abbrev pub IsPausing : (ℕ → Bool) → List ℕ → Answer → Answer → ℕ → Trace → Type 0
IsPausing is_deadly initial h q (suc rounds) ((Call.pause, a) ∷ t) =
    (reaction is_deadly h q a ≡ goes_on) × IsPausing is_deadly initial h q rounds t
IsPausing is_deadly initial h q zero
      ((Call.sigaction signo handler, a) ∷ (Call.sigaction signo' handler', a') ∷ t) =
    (table initial t ≡ 3 ∷ 2 ∷ 1 ∷ 0 ∷ [])
    × IsStamped t
    × (signo ≡ sigterm)
    × (handler ≡ term)
    × (a ≡ q)
    × (signo' ≡ sighup)
    × (handler' ≡ reread)
    × (a' ≡ h)
IsPausing is_deadly initial h q rounds t = ⊥

-- After fewer pauses than rounds, a signal has come to which the process reacts like that.
abbrev pub Reacts : (ℕ → Bool) → List ℕ → ℕ → Reaction → Answer → Trace → Type 0
Reacts is_deadly initial rounds r a t =
    (h : Answer) × (q : Answer) × (before : ℕ) × (before < rounds)
    × (reaction is_deadly h q a ≡ r)
    × IsPausing is_deadly initial h q before t

-- How daemonize may end, or be after a number of pauses.
abbrev pub Handles : (ℕ → Bool) → List ℕ → ℕ → Outcome Fate → Trace → Type 0
Handles is_deadly initial rounds spins t' =
    (h : Answer) × (q : Answer) × IsPausing is_deadly initial h q rounds t'
Handles is_deadly initial rounds (returns back) ((Call.fork, Answer.fail _) ∷ t') =
    table initial t' ≡ initial
Handles is_deadly initial rounds (returns (killed signo)) ((Call.pause, a) ∷ t') =
    (signo ≡ signal_of a) × Reacts is_deadly initial rounds dies a t'
Handles is_deadly initial rounds (exits (nonneg n)) ((Call.fork, Answer.ok pid _) ∷ t') =
    (n ≡ 0) × (0 < pid)
Handles is_deadly initial rounds (exits (nonneg n)) ((Call.pause, a) ∷ t') =
    (n ≡ 1) × Reacts is_deadly initial rounds runs_term a t'
Handles is_deadly initial rounds (exits minus_one) t' = 0 < failures t'
Handles is_deadly initial rounds faults t' = IsTooLong t'
Handles is_deadly initial rounds _ t' = ⊥
