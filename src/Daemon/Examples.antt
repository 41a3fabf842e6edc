-- ===== src/Daemon/Examples.antt =====
-- The theorems about daemonize at a concrete system.
use myapue.Base.{Bool, not, ◌||◌, ◌==◌, ℕ, refl, arith, List, [], ◌∷◌}
use myapue.Posix.{Os, Trace, Call, Answer, ok}
use myapue.Daemon
use myapue.Daemon.Table.{table, lowest, LowestFree}
use myapue.Daemon.Reread.{Serves, reread-Serves}
use myapue.Daemon.Reread
use myapue.Daemon.Handlers
use myapue.Daemon.Ends.{IsLimited, Ends, daemonize-Ends}

-- The descriptors of the caller.
abbrev opened : List ℕ
opened = 0 ∷ 1 ∷ 2 ∷ 6 ∷ []

-- No call fails; the limit is 10 descriptors, and the process is number 4321.
abbrev kind_system : Os
kind_system t (Call.open_file _) = ok (lowest (table opened t)) []
kind_system t (Call.dup _) = ok (lowest (table opened t)) []
kind_system t Call.getrlimit = ok 0 (10 ∷ [])
kind_system t Call.getpid = ok 4321 []
kind_system t (Call.sprintf _) = ok 4 (52 ∷ 51 ∷ 50 ∷ 49 ∷ [])
kind_system t c = ok 0 []

kind_system-LowestFree : LowestFree opened kind_system
kind_system-LowestFree = record { opens_lowest = λ t name h. refl; dups_lowest = λ t fd h. refl }

kind_system-IsLimited : IsLimited opened kind_system
unfolding Daemon.fd_limit
kind_system-IsLimited t = ground arith

daemonize-Ends_example : let run = Daemon.daemonize kind_system "cmd" [] in Ends opened run.0 run.1
daemonize-Ends_example =
    daemonize-Ends opened kind_system kind_system-LowestFree kind_system-IsLimited "cmd"

-- SIGHUP comes to the thread first, and SIGINT next.
abbrev to_thread : Trace → Answer
to_thread ((Call.sigwait, a) ∷ t) = ok 0 (2 ∷ [])
to_thread t = ok 0 (1 ∷ [])

abbrev signalled : Os
signalled t (Call.open_file _) = ok (lowest (table opened t)) []
signalled t (Call.dup _) = ok (lowest (table opened t)) []
signalled t Call.getrlimit = ok 0 (10 ∷ [])
signalled t Call.getpid = ok 4321 []
signalled t (Call.sprintf _) = ok 4 (52 ∷ 51 ∷ 50 ∷ 49 ∷ [])
signalled t Call.sigwait = to_thread t
signalled t c = ok 0 []

signalled-LowestFree : LowestFree opened signalled
signalled-LowestFree = record { opens_lowest = λ t name h. refl; dups_lowest = λ t fd h. refl }

signalled-IsLimited : IsLimited opened signalled
unfolding Daemon.fd_limit
signalled-IsLimited t = ground arith

reread-Serves_example :
    let run = Reread.daemonize signalled 3 "cmd" [] in Serves opened 3 run.0 run.1
reread-Serves_example =
    reread-Serves opened signalled signalled-LowestFree signalled-IsLimited 3 "cmd"

-- SIGHUP comes at the first pause, and SIGTERM at the next.
abbrev next_signal : Trace → Answer
next_signal ((Call.pause, a) ∷ t) = ok 0 (15 ∷ [])
next_signal t = ok 0 (1 ∷ [])

abbrev paused : Os
paused t (Call.open_file _) = ok (lowest (table opened t)) []
paused t (Call.dup _) = ok (lowest (table opened t)) []
paused t Call.getrlimit = ok 0 (10 ∷ [])
paused t Call.getpid = ok 4321 []
paused t (Call.sprintf _) = ok 4 (52 ∷ 51 ∷ 50 ∷ 49 ∷ [])
paused t Call.pause = next_signal t
paused t c = ok 0 []

-- Every signal but SIGCHLD, SIGCONT and SIGURG.
abbrev deadly : ℕ → Bool
deadly s = not (s == 17 || s == 18 || s == 23)
