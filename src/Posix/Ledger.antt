-- ===== src/Posix/Ledger.antt =====
-- The descriptors that a trace leaves open, read off its calls: the abstract view of what the
-- programs acquire and release.
use myapue.Base.{
  ◌≤◌, arith, ℕ, suc, Option, none, some, Bool, true, false, List, [], ◌∷◌, ◌==◌, if◌then◌else◌,
}
use myapue.Posix.{Call, Answer, Trace}

-- One occurrence of `fd` taken out.
abbrev pub without : ℕ → List ℕ → List ℕ
without fd [] = []
without fd (x ∷ xs) = if x == fd then xs else x ∷ without fd xs

-- `socket`, `accept`, `open` and `dup` hand out a descriptor, and `close` takes it back.
abbrev pub ledger_step : Call → Answer → List ℕ → List ℕ
ledger_step (Call.socket _ _) (Answer.ok fd _) fds = fd ∷ fds
ledger_step (Call.accept _) (Answer.ok fd _) fds = fd ∷ fds
ledger_step (Call.open_file _) (Answer.ok fd _) fds = fd ∷ fds
ledger_step (Call.dup _) (Answer.ok fd _) fds = fd ∷ fds
ledger_step (Call.close fd) _ fds = without fd fds
ledger_step _ _ fds = fds

abbrev pub open_fds : Trace → List ℕ
open_fds [] = []
open_fds ((c, a) ∷ t) = ledger_step c a (open_fds t)

-- The calls whose result the programs must look at: a failure of the others is harmless to them.
abbrev pub is_required : Call → Bool
is_required (Call.unlink _) = false
is_required (Call.lseek _ _) = false
is_required (Call.close _) = false
is_required (Call.fstat _) = false
is_required (Call.sleep _) = false
is_required (Call.report _) = false
is_required (Call.syslog _) = false
is_required (Call.openlog _) = false
is_required (Call.waitpid _) = false
is_required (Call.sprintf _) = false
is_required _ = true

-- How many required calls have failed.
abbrev pub failures : Trace → ℕ
failures [] = 0
failures ((c, Answer.ok _ _) ∷ t) = failures t
failures ((c, Answer.fail _) ∷ t) = if is_required c then suc (failures t) else failures t

-- `errno` as the latest call other than a `close` has set it, if that call failed.
abbrev pub last_error : Trace → Option ℕ
last_error [] = none
last_error ((Call.close _, a) ∷ t) = last_error t
last_error ((c, Answer.ok _ _) ∷ t) = none
last_error ((c, Answer.fail e) ∷ t) = some e

-- How often the trace closes a descriptor.
abbrev pub closes : Trace → ℕ
closes [] = 0
closes ((Call.close _, a) ∷ t) = suc (closes t)
closes ((c, a) ∷ t) = closes t

-- What the latest recv returned; 0 if there is none.
abbrev pub received : Trace → ℕ
received [] = 0
received ((Call.recv _ _, Answer.ok n _) ∷ t) = n
received ((c, a) ∷ t) = received t

pub failures-le : (c : Call) (a : Answer) (t : Trace) → failures t ≤ failures ((c, a) ∷ t)
failures-le c (Answer.ok _ _) t = omega arith
failures-le c (Answer.fail _) t = grown (is_required c)
  where
    grown : (b : Bool) → failures t ≤ (if b then suc (failures t) else failures t)
    grown true = omega arith
    grown false = omega arith
