-- ===== src/PollMsg/Examples.antt =====
-- A kernel that stores one event and answers each read with two bytes.
use myapue.Base.{ℕ, ◌≡◌, [], ◌∷◌, refl, true, false, arith}
use myapue.Posix.{Os, Call, Answer, faults}
use myapue.PollMsg.{main, scan, thread_function}
use myapue.PollMsg.Relay.{Serves, thread_function-Serves}
use myapue.PollMsg.Ends.{Polls, main-Polls}

abbrev answers : ℕ → Call → Answer
answers count (Call.epoll_wait epfd size) = Answer.ok 1 (5 ∷ 1 ∷ [])
answers count (Call.msgrcv queue size) = Answer.ok 3 (72 ∷ 0 ∷ 73 ∷ [])
answers count (Call.read fd size) = Answer.ok count (72 ∷ 73 ∷ [])
answers count _ = Answer.ok 3 (5 ∷ 6 ∷ [])

abbrev reads_of_two : Os
reads_of_two t c = answers 2 c

abbrev reads_of_nine : Os
reads_of_nine t c = answers 9 c

-- A read of nine bytes leads beyond the array of events.
nine_bytes_fault :
    (scan reads_of_nine 4 0 1 ((5, true) ∷ (0, false) ∷ (0, false) ∷ []) []).0 ≡ faults
unfolding scan
nine_bytes_fault = refl

thread_function-Serves_example :
    Serves 2 7 6 (thread_function reads_of_two 2 7 6 []).0 (thread_function reads_of_two 2 7 6 []).1
thread_function-Serves_example = thread_function-Serves reads_of_two 7 6 2 []

main-Polls_example :
    Polls 2
      (main reads_of_two 2 ((0, false) ∷ (0, false) ∷ (0, false) ∷ []) []).0
      (main reads_of_two 2 ((0, false) ∷ (0, false) ∷ (0, false) ∷ []) []).1
main-Polls_example =
    main-Polls reads_of_two (λ t epfd. omega arith) 2 ((0, false) ∷ (0, false) ∷ (0, false) ∷ []) []
