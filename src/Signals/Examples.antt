-- ===== src/Signals/Examples.antt =====
-- The theorems about the signal programs at concrete systems.
use myapue.Base.{◌≡◌, refl, [], ◌∷◌}
use myapue.Posix.{Os, Call, ok, fail, nonneg, returns}
use myapue.Signals.State.{Initial, ReportsOld, action, mask}
use myapue.Signals.System.{system, prepare, continue, parent, restore, wait_for}
use myapue.Signals.Abort.{abort, Aborts, abort-Aborts}
use myapue.Signals.System.Restores.{Ends, system-Ends}
use myapue.Signals.System.Edges.{ForkFails}

-- A process that handles SIGINT and blocks nothing.
abbrev fresh : Initial
fresh = record { actions = λ s. 2; mask = [] }

-- A system that reports the old values; the child of fork is process 7, and exits with status 0.
abbrev honest : Os
honest t (Call.sigaction s h) = ok 0 (action fresh t s ∷ [])
honest t (Call.block s) = ok 0 (mask fresh t)
honest t Call.fork = ok 7 []
honest t c = ok 0 (0 ∷ [])

honest-ReportsOld : ReportsOld fresh honest
honest-ReportsOld = record { old_action = λ t s h ok_call. refl; old_mask = λ t s ok_call. refl }

system_status : (system honest 1 "ls" []).0 ≡ returns (nonneg 0)
unfolding system prepare continue parent restore wait_for
system_status = refl

system-Ends_example : let run = system honest 1 "ls" [] in Ends fresh 2 2 [] 0 "ls" run.0 run.1
system-Ends_example = system-Ends fresh honest honest-ReportsOld 1 "ls" []

-- The same, but fork fails.
abbrev exhausted : Os
exhausted t Call.fork = fail 11
exhausted t c = honest t c

exhausted-ForkFails : ForkFails exhausted
exhausted-ForkFails = record {
  sets_action = λ t s h. refl;
  adds = λ t s. refl;
  blocks = λ t s. refl;
  no_fork = λ t. refl;
}

abort-Aborts_example : let run = abort fresh honest [] in Aborts fresh [] run.0 run.1
abort-Aborts_example = abort-Aborts fresh honest []
