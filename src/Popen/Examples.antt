-- ===== src/Popen/Examples.antt =====
-- A stream to read from, with a child 7 behind the pipe 3, 4.
use myapue.Base.{true, ℕ, ◌≡◌, refl, arith, List, [], ◌∷◌, some, none}
use myapue.Posix.{Os, Call, Answer, returns}
use myapue.Popen.{Direction, my_popen, my_pclose}
use myapue.Popen.Pairs.{ClosesIf, child_of, my_pclose-my_popen}

abbrev answers : Call → Answer
answers Call.pipe = Answer.ok 0 (3 ∷ 4 ∷ [])
answers Call.sysconf = Answer.ok 6 []
answers Call.fork = Answer.ok 7 []
answers _ = Answer.ok 0 []

abbrev piping_os : Os
piping_os t c = answers c

abbrev pids : List ℕ
pids = 0 ∷ 0 ∷ 0 ∷ 7 ∷ 0 ∷ 0 ∷ []

opens_three : (my_popen piping_os "ls" Direction.reading none []).0 ≡ returns (some 3, some pids)
unfolding my_popen
opens_three = refl

my_pclose-my_popen_example :
    ClosesIf true
      (child_of (my_popen piping_os "ls" Direction.reading none []).1)
      []
      (my_pclose piping_os 3 (some pids) [])
my_pclose-my_popen_example =
    my_pclose-my_popen piping_os "ls" Direction.reading none [] 3 pids opens_three 3 []
      (omega arith)
