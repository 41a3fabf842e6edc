-- ===== src/Copy/Examples.antt =====
-- Two bytes of which the first write takes one.
use myapue.Base.{◌≡◌, refl, [], ◌∷◌}
use myapue.Posix.{Os, Call, ok, nonneg, minus_one, returns}
use myapue.Copy.{mycat, restarted, mycat_unchecked, copy, read_next, read_next_unchecked, written}
use myapue.Copy.Whole.{Copies, inputs, outputs, mycat-Copies}

abbrev short_write : Os
short_write [] (Call.read _ _) = ok 2 (7 ∷ 8 ∷ [])
short_write t (Call.write _ _) = ok 1 []
short_write t c = ok 0 []

mycat_status : (mycat short_write 3 []).0 ≡ returns minus_one
unfolding mycat copy read_next written
mycat_status = refl

-- 02_mycat.c returns 0, and a byte is lost.
unchecked_run :
    let run = mycat_unchecked short_write 3 [] in
    (run.0 ≡ returns (nonneg 0)) × (inputs run.1 ≡ 7 ∷ 8 ∷ []) × (outputs run.1 ≡ 7 ∷ [])
unfolding mycat_unchecked read_next_unchecked
unchecked_run = (refl, refl, refl)

mycat-Copies_example :
    let checked = mycat short_write 3 [] in
    let run = restarted short_write 2 3 [] in Copies checked.0 checked.1 × Copies run.0 run.1
mycat-Copies_example = mycat-Copies short_write 2 3
