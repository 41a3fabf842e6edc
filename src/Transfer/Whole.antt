-- ===== src/Transfer/Whole.antt =====
-- readn and writen: everything asked for is transferred, up to the end or an error.
use myapue.Base.{
  ℕ, zero, suc, ◌+◌, ◌≤◌, ◌<◌, ◌==◌, ◌⊎◌, ◌≡◌, ◌∙◌, refl, arith, List, [], ◌∷◌, length,
}
use myapue.Posix.{Os, Trace, Status, nonneg, minus_one}
use myapue.Posix.{ok, fail, Call, Answer, Outcome, returns}
use myapue.Base.{
  ◌++◌, ◌-◌, ◌^◌, take, drop, length-append, append_assoc, append-nil, sym, ap, nil_of_length,
  take-take, take-append-take, drop-drop, length-take_le, Bool-cases, inl, inr,
}
use myapue.Transfer.{sub_size, read_next, read_loop, readn, write_next, write_loop, writen}

-- The bytes that the reads of a trace have delivered, in order.
abbrev pub delivered : Trace → List ℕ
delivered [] = []
delivered ((Call.read _ _, Answer.ok _ out) ∷ t) = delivered t ++ out
delivered ((c, a) ∷ t) = delivered t

-- The latest call is a read or a write that failed or transferred nothing.
abbrev pub IsStopped : Trace → Type 0
IsStopped ((Call.read _ _, Answer.fail _) ∷ t) = Unit
IsStopped ((Call.read _ _, Answer.ok k _) ∷ t) = k ≡ 0
IsStopped ((Call.write _ _, Answer.fail _) ∷ t) = Unit
IsStopped ((Call.write _ _, Answer.ok k _) ∷ t) = k ≡ 0
IsStopped _ = ⊥

-- What read promises: it delivers as many bytes as it says, and no more than asked for.
pub record ReadsWithin (os : Os) : Type 0 where
  pub delivers :
      (t : Trace) (fd n k : ℕ) (out : List ℕ) → os t (Call.read fd n) ≡ ok k out → length out ≡ k
  pub within : (t : Trace) (fd n k : ℕ) (out : List ℕ) → os t (Call.read fd n) ≡ ok k out → k ≤ n

-- How readn may end after `before` has been delivered, when `n` bytes are asked for.
abbrev pub Reads : ℕ → List ℕ → Outcome (Status × List ℕ) → Trace → Type 0
Reads n before (returns (nonneg m, bytes)) t' =
    (delivered t' ≡ before ++ bytes) × (length bytes ≡ m) × (m ≤ n) × ((m ≡ n) ⊎ IsStopped t')
Reads n before (returns (minus_one, bytes)) t' =
    (delivered t' ≡ before) × (bytes ≡ []) × IsStopped t'
Reads n before _ t' = ⊥

module _ (os : Os) (reads : ReadsWithin os) (fd n : ℕ) (small : n < 2 ^ 64) (before : List ℕ) where
  read_next-Reads :
      (fuel n_left : ℕ) (bytes : List ℕ) (t : Trace) (a : Answer)
      → os t (Call.read fd n_left) ≡ a
      → length bytes + n_left ≡ n
      → 0 < n_left
      → delivered t ≡ before ++ bytes
      → ((left : ℕ) (more : List ℕ) (u : Trace)
          → left < n_left
          → length more + left ≡ n
          → delivered u ≡ before ++ more
          → let run = read_loop os fuel fd n left more u in Reads n before run.0 run.1)
      → let run =
          read_next os (read_loop os fuel fd n) n n_left bytes a ((Call.read fd n_left, a) ∷ t) in
        Reads n before run.0 run.1
  unfolding read_next
  read_next-Reads fuel n_left bytes t (fail e) answered split pos so_far ih =
      elim (Bool-cases (n_left == n)) [
        | inl untouched ↦
            let empty : bytes ≡ [] = nil_of_length bytes (ground arith) in
            rw untouched (so_far ∙ ap (◌++◌ before) empty ∙ append-nil before, empty, tt)
        | inr touched ↦ rw touched (so_far, omega arith, omega arith, inr tt)
      ]
  read_next-Reads fuel n_left bytes t (ok k out) answered split pos so_far ih =
      elim (Bool-cases (k == 0)) [
        | inl at_end ↦
            let empty : out ≡ [] =
              nil_of_length out (ground (arith, reads.delivers t fd n_left k out)) in
            rw at_end (
              ap (◌++◌ (delivered t)) empty ∙ append-nil (delivered t) ∙ so_far,
              omega arith,
              omega arith,
              inr (ground arith),
            )
        | inr some_read ↦ rw some_read (
            ih (sub_size n_left k) (bytes ++ out) ((Call.read fd n_left, ok k out) ∷ t)
              (ground (arith, reads.within t fd n_left k out))
              (ground (
                arith,
                reads.within t fd n_left k out,
                reads.delivers t fd n_left k out,
                length-append bytes out,
              ))
              (ap (λ b. b ++ out) so_far ∙ append_assoc before bytes out))
      ]

  read_loop-Reads :
      (fuel n_left : ℕ) (bytes : List ℕ) (t : Trace)
      → n_left < fuel
      → length bytes + n_left ≡ n
      → delivered t ≡ before ++ bytes
      → let run = read_loop os fuel fd n n_left bytes t in Reads n before run.0 run.1
  unfolding read_loop
  read_loop-Reads zero n_left bytes t enough split so_far = absurd (omega arith)
  read_loop-Reads (suc fuel) zero bytes t enough split so_far =
      (so_far, omega arith, omega arith, inl refl)
  read_loop-Reads (suc fuel) (suc k) bytes t enough split so_far =
      read_next-Reads fuel (suc k) bytes t (os t (Call.read fd (suc k))) refl split (omega arith)
        so_far
        (λ left more u less parts here. read_loop-Reads fuel left more u (omega arith) parts here)

-- readn always returns, whatever read answers within its promise. A count m comes with the m bytes
-- that the reads of this call delivered, in order; it is n unless the last read met the end or
-- failed. It returns -1 only if its first read failed, and then nothing is stored.
pub readn-Reads :
    (os : Os)
    → ReadsWithin os
    → (fd n : ℕ) (t : Trace) → n < 2 ^ 64
    → let run = readn os fd n t in Reads n (delivered t) run.0 run.1
unfolding readn
readn-Reads os reads fd n t small =
    read_loop-Reads os reads fd n small (delivered t) (n + 1) n [] t (omega arith) (omega arith)
      (sym (append-nil (delivered t)))

-- The bytes that the writes of a trace have accepted, in order.
abbrev pub accepted : Trace → List ℕ
accepted [] = []
accepted ((Call.write _ message, Answer.ok k _) ∷ t) = accepted t ++ take k message
accepted ((c, a) ∷ t) = accepted t

-- What write promises: it accepts no more bytes than it is given.
pub record WritesWithin (os : Os) : Type 0 where
  pub fits :
      (t : Trace) (fd k : ℕ) (message out : List ℕ)
      → os t (Call.write fd message) ≡ ok k out
      → k ≤ length message

-- How writen may end after `before` has been accepted, when `n` bytes from `buffer` are to go out.
abbrev pub Writes : ℕ → List ℕ → List ℕ → Outcome Status → Trace → Type 0
Writes n buffer before (returns (nonneg m)) t' =
    (accepted t' ≡ before ++ take m buffer) × (m ≤ n) × ((m ≡ n) ⊎ IsStopped t')
Writes n buffer before (returns minus_one) t' = (accepted t' ≡ before) × IsStopped t'
Writes n buffer before _ t' = ⊥

module _ (os : Os) (writes : WritesWithin os) (fd n : ℕ) (small : n < 2 ^ 64)
    (buffer before : List ℕ) (whole : n ≤ length buffer) where
  -- The next part of the buffer joins what has been taken from it.
  take-next :
      (i k left : ℕ)
      → k ≤ left
      → take i buffer ++ take k (take left (drop i buffer)) ≡ take (i + k) buffer
  take-next i k left h =
      ap (◌++◌ (take i buffer)) (take-take k left (drop i buffer) h) ∙ take-append-take i k buffer

  write_next-Writes :
      (fuel n_left : ℕ) (ptr : List ℕ) (t : Trace) (a : Answer)
      → os t (Call.write fd (take n_left ptr)) ≡ a
      → n_left ≤ n
      → 0 < n_left
      → ptr ≡ drop (n - n_left) buffer
      → accepted t ≡ before ++ take (n - n_left) buffer
      → ((left : ℕ) (rest : List ℕ) (u : Trace)
          → left < n_left
          → rest ≡ drop (n - left) buffer
          → accepted u ≡ before ++ take (n - left) buffer
          → let run = write_loop os fuel fd n left rest u in Writes n buffer before run.0 run.1)
      → let c = Call.write fd (take n_left ptr) in
        let run = write_next os (write_loop os fuel fd n) n n_left ptr a ((c, a) ∷ t) in
        Writes n buffer before run.0 run.1
  unfolding write_next
  write_next-Writes fuel n_left ptr t (fail e) answered le pos here so_far ih =
      elim (Bool-cases (n_left == n)) [
        | inl untouched ↦
            let same : n - n_left ≡ 0 = ground arith in
            rw untouched (so_far ∙ ap (λ i. before ++ take i buffer) same ∙ append-nil before, tt)
        | inr touched ↦ rw touched (so_far, omega arith, inr tt)
      ]
  write_next-Writes fuel n_left ptr t (ok k out) answered le pos here so_far ih =
      elim (Bool-cases (k == 0)) [
        | inl stuck ↦
            let none : k ≡ 0 = ground arith in
            rw stuck (
              ap (λ i. accepted t ++ take i (take n_left ptr)) none
                  ∙ append-nil (accepted t)
                  ∙ so_far,
              omega arith,
              inr none,
            )
        | inr some_written ↦
            let within : k ≤ n_left = omega (
              arith,
              writes.fits t fd k (take n_left ptr) out answered,
              length-take_le n_left ptr,
            ) in
            let moved : n - n_left + k ≡ n - sub_size n_left k = omega arith in
            rw some_written (
              ih (sub_size n_left k) (drop k ptr) ((Call.write fd (take n_left ptr), ok k out) ∷ t)
                (ground arith)
                (ap (drop k) here ∙ drop-drop (n - n_left) k buffer ∙ ap (λ i. drop i buffer) moved)
                (ap (λ b. b ++ take k (take n_left ptr)) so_far
                  ∙ append_assoc before _ _
                  ∙ ap (λ p. before ++ (take (n - n_left) buffer ++ take k (take n_left p))) here
                  ∙ ap (◌++◌ before) (take-next (n - n_left) k n_left within)
                  ∙ ap (λ i. before ++ take i buffer) moved))
      ]

  write_loop-Writes :
      (fuel n_left : ℕ) (ptr : List ℕ) (t : Trace)
      → n_left < fuel
      → n_left ≤ n
      → ptr ≡ drop (n - n_left) buffer
      → accepted t ≡ before ++ take (n - n_left) buffer
      → let run = write_loop os fuel fd n n_left ptr t in Writes n buffer before run.0 run.1
  unfolding write_loop
  write_loop-Writes zero n_left ptr t enough le here so_far = absurd (omega arith)
  write_loop-Writes (suc fuel) zero ptr t enough le here so_far =
      let all : n - 0 ≡ n = omega arith in
      (so_far ∙ ap (λ i. before ++ take i buffer) all, omega arith, inl refl)
  write_loop-Writes (suc fuel) (suc k) ptr t enough le here so_far =
      write_next-Writes fuel (suc k) ptr t (os t (Call.write fd (take (suc k) ptr))) refl le
        (omega arith) here so_far
        (λ left rest u less there more.
          write_loop-Writes fuel left rest u (omega arith) (omega arith) there more)

-- writen always returns. A count m means that exactly the first m bytes of the buffer have been
-- accepted, in order; it is n unless the last write failed or accepted nothing. It returns -1 only
-- if its first write failed, and then nothing has been accepted.
pub writen-Writes :
    (os : Os)
    → WritesWithin os
    → (fd n : ℕ) (buffer : List ℕ) (t : Trace) → n < 2 ^ 64
    → n ≤ length buffer
    → let run = writen os fd buffer n t in Writes n buffer (accepted t) run.0 run.1
unfolding writen
writen-Writes os writes fd n buffer t small whole =
    write_loop-Writes os writes fd n small buffer (accepted t) whole (n + 1) n buffer t
      (omega arith) (omega arith) (ap (λ i. drop i buffer) none)
      (sym (append-nil (accepted t)) ∙ ap (λ i. accepted t ++ take i buffer) none)
  where
    none : 0 ≡ n - n
    none = omega arith
