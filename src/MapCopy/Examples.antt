-- ===== src/MapCopy/Examples.antt =====
-- A file of a window and a half.
use Prim.Native.String.{String}
use myapue.Base.{◌≡◌, List, [], ◌∷◌, refl}
use myapue.Posix.{Os, Call, Answer, returns, nonneg}
use myapue.MapCopy.{main}
use myapue.MapCopy.Windows.{CopiesWindows, main-CopiesWindows}

abbrev answers : Call → Answer
answers (Call.fstat fd) = Answer.ok 0 (1572864 ∷ [])
answers _ = Answer.ok 3 []

abbrev mapping_os : Os
mapping_os t c = answers c

abbrev args : List String
args = "mmap_io" ∷ "from" ∷ "to" ∷ []

copies_two_windows : (main mapping_os args []).0 ≡ returns (nonneg 0)
unfolding main
copies_two_windows = refl

main-CopiesWindows_example :
    CopiesWindows mapping_os 1572864 args (main mapping_os args []).0 (main mapping_os args []).1
main-CopiesWindows_example = main-CopiesWindows mapping_os 1572864 args (λ t fd. refl)
