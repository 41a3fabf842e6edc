-- ===== src/Copy/Whole.antt =====
-- The two loops that look at what write has taken copy the whole input.
use myapue.Base.{
  ℕ, zero, suc, ◌≤◌, ◌≡◌, ◌∙◌, sym, ap, refl, arith, Bool, true, false, Bool-cases, if◌then◌else◌,
  inl, inr, List, [], ◌∷◌, ◌++◌, take, drop, append-nil, append_assoc, take-take_over,
  take-append-drop,
}
use myapue.Posix.{
  Os, Prog, Trace, Status, nonneg, minus_one, failed, ok, fail, Call, Answer, Outcome, returns,
  spins, print, pure, ◌>>◌,
}
use myapue.Copy.{is_all, is_enough, written, read_next, copy, mycat, restarted, bufsize, bufsiz}

-- The bytes that read has stored, and those that write has taken.
abbrev pub inputs : Trace → List ℕ
inputs [] = []
inputs ((Call.read _ _, Answer.ok n out) ∷ t) = inputs t ++ take n out
inputs (_ ∷ t) = inputs t

abbrev pub outputs : Trace → List ℕ
outputs [] = []
outputs ((Call.write _ m, Answer.ok n _) ∷ t) = outputs t ++ take n m
outputs (_ ∷ t) = outputs t

-- The latest call is a read that has met the end.
abbrev pub HasMetEnd : Trace → Type 0
HasMetEnd ((Call.read _ _, Answer.ok zero _) ∷ t) = Unit
HasMetEnd _ = ⊥

-- How the loop may end, or be after a number of rounds.
abbrev pub Copies : Outcome Status → Trace → Type 0
Copies (returns (nonneg n)) t = (n ≡ 0) × (outputs t ≡ inputs t) × HasMetEnd t
Copies (returns minus_one) t = (rest : List ℕ) × (inputs t ≡ outputs t ++ rest)
Copies spins t = outputs t ≡ inputs t
Copies _ t = ⊥

-- A test that lets pass only a write of all bytes.
abbrev pub IsStrict : (Answer → ℕ → Bool) → Type 0
IsStrict accepts = (v : ℕ) → (out : List ℕ) → (n : ℕ) → accepts (ok v out) n ≡ true → n ≤ v

module _ (os : Os) (accepts : Answer → ℕ → Bool) (strict : IsStrict accepts)
    (refuses : (e n : ℕ) → accepts (fail e) n ≡ false) (size : ℕ) where
  -- After a write of the bytes that a read has stored.
  written-Copies :
      (again : Prog Status) (n : ℕ) (out : List ℕ) (w : Answer) (t : Trace)
      → outputs t ≡ inputs t
      → ((u : Trace) → outputs u ≡ inputs u → Copies (again u).0 (again u).1)
      → let u : Trace =
          (Call.write 1 (take (suc n) out), w) ∷ (Call.read 0 size, ok (suc n) out) ∷ t in
        let run = written os again (accepts w (suc n)) u in Copies run.0 run.1
  unfolding written
  written-Copies again n out (fail e) t same later =
      rw (refuses e (suc n)) (take (suc n) out, ap (λ x. x ++ take (suc n) out) (sym same))
  written-Copies again n out (ok v more) t same later =
      elim (Bool-cases (accepts (ok v more) (suc n))) [
        | inl taken ↦ rw taken (later _ (whole (strict v more (suc n) taken)))
        | inr less ↦ rw less (drop v (take (suc n) out), part)
      ]
    where
      whole : suc n ≤ v → outputs t ++ take v (take (suc n) out) ≡ inputs t ++ take (suc n) out
      whole le =
          ap (λ x. outputs t ++ x) (take-take_over v (suc n) out le)
          ∙ ap (λ x. x ++ take (suc n) out) same

      part :
          inputs t ++ take (suc n) out
          ≡ (outputs t ++ take v (take (suc n) out)) ++ drop v (take (suc n) out)
      part =
          ap (λ x. x ++ take (suc n) out) (sym same)
          ∙ ap (λ x. outputs t ++ x) (sym (take-append-drop v (take (suc n) out)))
          ∙ sym (append_assoc (outputs t) _ _)

  read_next-Copies :
      (again : Prog Status) (a : Answer) (t : Trace)
      → outputs t ≡ inputs t
      → ((u : Trace) → outputs u ≡ inputs u → Copies (again u).0 (again u).1)
      → let run = read_next os accepts again a ((Call.read 0 size, a) ∷ t) in Copies run.0 run.1
  unfolding read_next
  read_next-Copies again (ok zero out) t same later = (refl, same ∙ sym (append-nil (inputs t)), tt)
  read_next-Copies again (ok (suc n) out) t same later = written-Copies again n out _ t same later
  read_next-Copies again (fail e) t same later = ([], sym same ∙ sym (append-nil (outputs t)))

  copy-Copies :
      (rounds : ℕ) (t : Trace)
      → outputs t ≡ inputs t
      → let run = copy os accepts size rounds t in Copies run.0 run.1
  unfolding copy
  copy-Copies zero t same = same
  copy-Copies (suc rounds) t same =
      read_next-Copies (copy os accepts size rounds) (os t (Call.read 0 size)) t same
        (copy-Copies rounds)

is_all-IsStrict : IsStrict is_all
is_all-IsStrict v out n h = ground (arith, h)

is_enough-IsStrict : IsStrict is_enough
is_enough-IsStrict v out n h = ground (arith, h)

-- How main of 18_sigtstp.c may end: the same, or sigaction has failed, and nothing is copied.
restarted-Copies :
    (os : Os) (handler rounds : ℕ) → let run = restarted os handler rounds [] in Copies run.0 run.1
unfolding restarted
restarted-Copies os handler rounds = answered (os [] (Call.sigaction 20 handler))
  where
    answered :
        (a : Answer)
        → let t : Trace = (Call.sigaction 20 handler, a) ∷ [] in
          let run =
            (if failed a
                then (do print os "sigaction error"; pure minus_one)
                else copy os is_enough bufsiz rounds)
              t in
          Copies run.0 run.1
    answered (ok v out) =
        copy-Copies os is_enough is_enough-IsStrict (λ e n. refl) bufsiz rounds _ refl
    answered (fail e) = ([], refl)

-- 03_mycat.c and main of 18_sigtstp.c copy the standard input: whatever the system answers, where they
-- return 0, read has met the end, and what write has taken is all that read has stored, in its
-- order; where they return -1, it is a beginning of that; and after any number of rounds without
-- a return it is all of that.
pub mycat-Copies :
    (os : Os) (handler rounds : ℕ)
    → let checked = mycat os rounds [] in
      let run = restarted os handler rounds [] in Copies checked.0 checked.1 × Copies run.0 run.1
unfolding mycat
mycat-Copies os handler rounds = (
  copy-Copies os is_all is_all-IsStrict (λ e n. refl) bufsize rounds [] refl,
  restarted-Copies os handler rounds,
)
