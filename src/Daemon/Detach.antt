-- ===== src/Daemon/Detach.antt =====
-- The daemon's start: its standard descriptors, its lock file, and how it may end.
use Prim.Native.String.{String}
use myapue.Base.{length, ◌≤◌, ℕ, ◌<◌, true, false, ◌≡◌, ◌∙◌, refl, arith, List, [], ◌∷◌}
use myapue.Posix.{Os, Trace, minus_one, failed}
use myapue.Posix.{value, out_of, Call, Answer, Outcome, returns, exits, faults}
use myapue.Posix.Ledger.{failures}
use myapue.Daemon.{lock_down, lock_file, are_wrong, open_null, already_running}
use myapue.Daemon.Table.{table, lowest, LowestFree, table-open_file, table-dup}
use myapue.Base.{ap, Bool-cases, inl, inr}
use mathlib.Core.Path.{ap₂}

-- How open_null may end in a process with an empty table.
abbrev pub OpensNull : List ℕ → ℕ → Outcome (Unit {0}) → Trace → Type 0
OpensNull initial errors (returns _) t' =
    (table initial t' ≡ 2 ∷ 1 ∷ 0 ∷ []) × (failures t' ≡ errors)
OpensNull initial errors (exits n) t' = (n ≡ minus_one) × (errors < failures t')
OpensNull initial errors _ t' = ⊥

right_answers :
    (a b c : Answer)
    → are_wrong a b c ≡ false
    → (failed a ≡ false) × (failed b ≡ false) × (failed c ≡ false)
unfolding are_wrong
right_answers a b c h = ground arith

-- The calls of open_null on a trace, with their answers.
abbrev null_calls : String → Answer → Answer → Answer → Answer → Trace → Trace
null_calls cmd a b c l t =
    (Call.openlog cmd, l) ∷ (Call.dup 0, c) ∷ (Call.dup 0, b) ∷ (Call.open_file "/dev/null", a) ∷ t

right-failures :
    (cmd : String) (a b c l : Answer) (t : Trace)
    → are_wrong a b c ≡ false
    → failures (null_calls cmd a b c l t) ≡ failures t
unfolding are_wrong
right-failures cmd a b c l t h = ground arith

wrong-failures :
    (cmd : String) (a b c l s : Answer) (t : Trace)
    → (failed a ≡ false → value a ≡ 0)
    → (failed a ≡ false → failed b ≡ false → value b ≡ 1)
    → (failed a ≡ false → failed b ≡ false → failed c ≡ false → value c ≡ 2)
    → are_wrong a b c ≡ true
    → failures t < failures ((Call.syslog "fd error", s) ∷ null_calls cmd a b c l t)
unfolding are_wrong
wrong-failures cmd a b c l s t first second third h = ground arith

module _ (initial : List ℕ) (os : Os) (low : LowestFree initial os) (t : Trace)
    (empty : table initial t ≡ []) where
  abbrev a₀ : Answer
  a₀ = os t (Call.open_file "/dev/null")

  abbrev t₁ : Trace
  t₁ = (Call.open_file "/dev/null", a₀) ∷ t

  abbrev a₁ : Answer
  a₁ = os t₁ (Call.dup 0)

  abbrev t₂ : Trace
  t₂ = (Call.dup 0, a₁) ∷ t₁

  abbrev a₂ : Answer
  a₂ = os t₂ (Call.dup 0)

  first_fd : failed a₀ ≡ false → value a₀ ≡ 0
  first_fd f = low.opens_lowest t "/dev/null" f ∙ ap lowest empty

  first_table : failed a₀ ≡ false → table initial t₁ ≡ 0 ∷ []
  first_table f = table-open_file initial t "/dev/null" a₀ f ∙ ap₂ ◌∷◌ (first_fd f) empty

  second_fd : failed a₀ ≡ false → failed a₁ ≡ false → value a₁ ≡ 1
  second_fd f g = low.dups_lowest t₁ 0 g ∙ ap lowest (first_table f)

  second_table : failed a₀ ≡ false → failed a₁ ≡ false → table initial t₂ ≡ 1 ∷ 0 ∷ []
  second_table f g = table-dup initial t₁ 0 a₁ g ∙ ap₂ ◌∷◌ (second_fd f g) (first_table f)

  third_fd : failed a₀ ≡ false → failed a₁ ≡ false → failed a₂ ≡ false → value a₂ ≡ 2
  third_fd f g h = low.dups_lowest t₂ 0 h ∙ ap lowest (second_table f g)

  third_table :
      failed a₀ ≡ false
      → failed a₁ ≡ false
      → failed a₂ ≡ false
      → table initial ((Call.dup 0, a₂) ∷ t₂) ≡ 2 ∷ 1 ∷ 0 ∷ []
  third_table f g h = table-dup initial t₂ 0 a₂ h ∙ ap₂ ◌∷◌ (third_fd f g h) (second_table f g)

  pub open_null-OpensNull :
      (cmd : String) → let run = open_null os cmd t in OpensNull initial (failures t) run.0 run.1
  unfolding open_null
  open_null-OpensNull cmd =
      let l : Answer = os ((Call.dup 0, a₂) ∷ t₂) (Call.openlog cmd) in
      let t₄ : Trace = null_calls cmd a₀ a₁ a₂ l t in
      elim (Bool-cases (are_wrong a₀ a₁ a₂)) [
        | inl wrong ↦ rw wrong (
          refl,
          wrong-failures cmd a₀ a₁ a₂ l (os t₄ (Call.syslog "fd error")) t first_fd second_fd
              third_fd wrong,
        )
        | inr right ↦
            let (f, g, h) = right_answers a₀ a₁ a₂ right in
            rw right (third_table f g h, right-failures cmd a₀ a₁ a₂ l t right)
      ]

-- The latest calls open and lock the lock file, with success, empty it and write to it what sprintf
-- makes of the process number, all on the descriptor that open has answered.
abbrev pub IsStamped : Trace → Type 0
IsStamped
      ((Call.write fd₄ m, _)
        ∷ (Call.sprintf n, s)
        ∷ (Call.getpid, p)
        ∷ (Call.ftruncate fd₃ size, _)
        ∷ (Call.lockf fd₂, Answer.ok _ _)
        ∷ (Call.open_file name, Answer.ok fd₁ _)
        ∷ t) =
    (name ≡ lock_file)
    × (fd₂ ≡ fd₁)
    × (fd₃ ≡ fd₁)
    × (size ≡ 0)
    × (n ≡ value p)
    × (length (out_of s) < 16)
    × (fd₄ ≡ fd₁)
    × (m ≡ out_of s)
IsStamped _ = ⊥

-- The latest call is a sprintf that stores more than 16 bytes with the terminator.
abbrev pub IsTooLong : Trace → Type 0
IsTooLong ((Call.sprintf n, s) ∷ t) = 16 ≤ length (out_of s)
IsTooLong _ = ⊥

-- How lock_down may end in a process with the three standard descriptors.
abbrev pub Locks : List ℕ → ℕ → Outcome (Unit {0}) → Trace → Type 0
Locks initial errors (returns _) t' = (table initial t' ≡ 3 ∷ 2 ∷ 1 ∷ 0 ∷ []) × IsStamped t'
Locks initial errors (exits n) t' = (n ≡ minus_one) × (errors < failures t')
Locks initial errors faults t' = IsTooLong t'
Locks initial errors _ t' = ⊥

pub lock_down-Locks :
    (initial : List ℕ) (os : Os)
    → LowestFree initial os
    → (t : Trace) → table initial t ≡ 2 ∷ 1 ∷ 0 ∷ []
    → let run = lock_down os t in Locks initial (failures t) run.0 run.1
unfolding lock_down already_running
lock_down-Locks initial os low t standard =
    let lock : failed (os t (Call.open_file lock_file)) ≡ false
        → value (os t (Call.open_file lock_file)) ≡ 3 =
      λ f. low.opens_lowest t lock_file f ∙ ap lowest standard in
    ground (arith, lock, standard)
