-- ===== src/AsyncCopy/Examples.antt =====
-- A file of 5000 bytes, for a kernel that answers at once.
use Prim.Native.String.{String}
use myapue.Base.{◌==◌, ◌≡◌, if◌then◌else◌, List, [], ◌∷◌, refl}
use myapue.Posix.{Os, Call, Answer, exits, nonneg}
use myapue.AsyncCopy.{main}
use myapue.AsyncCopy.Copies.{Copies, IsDirectedBy, main-Copies}

abbrev answers : Call → Answer
answers (Call.open_file name) = Answer.ok 3 []
answers (Call.fstat fd) = Answer.ok 0 (5000 ∷ [])
answers (Call.aio_return slot) = Answer.ok (if slot == 0 then 4096 else 904) []
answers _ = Answer.ok 0 []

abbrev prompt_os : Os
prompt_os t c = answers c

abbrev args : List String
args = "rot13" ∷ "from" ∷ "to" ∷ []

copies_at_once : (main prompt_os 9 args []).0 ≡ exits (nonneg 0)
unfolding main myapue.AsyncCopy.visit myapue.AsyncCopy.start_read myapue.AsyncCopy.finish_read
    myapue.AsyncCopy.finish_write
copies_at_once = refl

main-Copies_example :
    let run = main prompt_os 9 args [] in
    Copies 4096 5000 run.0 run.1 × IsDirectedBy prompt_os 5000 args run.1
main-Copies_example = main-Copies prompt_os 9 5000 args (λ t fd. refl) 4096
