-- ===== src/Transfer/Examples.antt =====
-- The theorems about readn and writen at concrete systems.
use myapue.Base.{ℕ, zero, suc, ◌≡◌, ◌≤◌, refl, arith, List, [], ◌∷◌, length}
use myapue.Posix.{Os, Call, ok, fail, returns, nonneg, Trace}
use myapue.Transfer.{readn, read_loop, read_next, writen, write_loop, write_next}
use myapue.Transfer.Whole.{
  ReadsWithin, WritesWithin, Reads, Writes, readn-Reads, writen-Writes, delivered, accepted,
}

-- At most two bytes are read at a time.
abbrev two_by_two : Os
two_by_two t (Call.read _ zero) = ok 0 []
two_by_two t (Call.read _ (suc zero)) = ok 1 (7 ∷ [])
two_by_two t (Call.read _ (suc (suc n))) = ok 2 (8 ∷ 9 ∷ [])
two_by_two t c = fail 5

-- One byte is accepted, and the next write fails.
abbrev one_byte : Os
one_byte [] (Call.write _ (x ∷ xs)) = ok 1 []
one_byte t c = fail 5

readn_five : (readn two_by_two 0 5 []).0 ≡ returns (nonneg 5, 8 ∷ 9 ∷ 8 ∷ 9 ∷ 7 ∷ [])
unfolding readn read_loop read_next
readn_five = refl

writen_three : (writen one_byte 1 (1 ∷ 2 ∷ 3 ∷ []) 3 []).0 ≡ returns (nonneg 1)
unfolding writen write_loop write_next
writen_three = refl

two_by_two-delivers :
    (t : Trace) (fd n k : ℕ) (out : List ℕ)
    → two_by_two t (Call.read fd n) ≡ ok k out
    → (length out ≡ k) × (k ≤ n)
two_by_two-delivers t fd zero k out h = ground arith
two_by_two-delivers t fd (suc zero) k out h = ground arith
two_by_two-delivers t fd (suc (suc n)) k out h = ground arith

two_by_two-ReadsWithin : ReadsWithin two_by_two
two_by_two-ReadsWithin = record {
  delivers = λ t fd n k out h. (two_by_two-delivers t fd n k out h).0;
  within = λ t fd n k out h. (two_by_two-delivers t fd n k out h).1;
}

one_byte-fits :
    (t : Trace) (fd k : ℕ) (message out : List ℕ)
    → one_byte t (Call.write fd message) ≡ ok k out
    → k ≤ length message
one_byte-fits [] fd k [] out h = ground arith
one_byte-fits [] fd k (x ∷ xs) out h = ground arith
one_byte-fits (c ∷ t) fd k message out h = ground arith

one_byte-WritesWithin : WritesWithin one_byte
one_byte-WritesWithin = record { fits = one_byte-fits }

readn-Reads_example : let run = readn two_by_two 0 5 [] in Reads 5 (delivered []) run.0 run.1
readn-Reads_example = readn-Reads two_by_two two_by_two-ReadsWithin 0 5 [] (omega arith)

writen-Writes_example :
    let run = writen one_byte 1 (1 ∷ 2 ∷ 3 ∷ []) 3 [] in
    Writes 3 (1 ∷ 2 ∷ 3 ∷ []) (accepted []) run.0 run.1
writen-Writes_example =
    writen-Writes one_byte one_byte-WritesWithin 1 3 (1 ∷ 2 ∷ 3 ∷ []) [] (omega arith) (omega arith)
