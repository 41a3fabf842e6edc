-- ===== src/AsyncCopy/Ledger.antt =====
-- What a trace says of the blocks at an offset.
use myapue.Base.{ℕ, ◌+◌, ◌==◌, ◌&&◌, if◌then◌else◌, Option, none, some, [], ◌∷◌, Bool, true, false}
use myapue.Posix.{Trace, Call, Answer}

abbrev pub one_if : Bool → ℕ
one_if true = 1
one_if false = 0

-- How many reads at the offset have been started.
abbrev pub begun : ℕ → Trace → ℕ
begun off [] = 0
begun off ((Call.aio_read i fd o n, Answer.ok _ _) ∷ t) = one_if (o == off) + begun off t
begun off (_ ∷ t) = begun off t

-- How many writes at the offset have been started.
abbrev pub resent : ℕ → Trace → ℕ
resent off [] = 0
resent off ((Call.aio_write i fd o n, Answer.ok _ _) ∷ t) = one_if (o == off) + resent off t
resent off (_ ∷ t) = resent off t

-- The write in a slot whose return has not been asked for: its offset and its count.
abbrev pub request : ℕ → Trace → Option (ℕ × ℕ)
request i [] = none
request i ((Call.aio_write j fd o n, Answer.ok _ _) ∷ t) =
    if j == i then some (o, n) else request i t
request i ((Call.aio_read j fd o n, Answer.ok _ _) ∷ t) = if j == i then none else request i t
request i ((Call.aio_return j, Answer.ok _ _) ∷ t) = if j == i then none else request i t
request i (_ ∷ t) = request i t

abbrev pub settles : ℕ → ℕ → Option (ℕ × ℕ) → ℕ
settles off n none = 0
settles off n (some (o, m)) = one_if ((o == off) && (n == m))

-- How many writes at the offset have returned the count they were given.
abbrev pub settled : ℕ → Trace → ℕ
settled off [] = 0
settled off ((Call.aio_return i, Answer.ok n _) ∷ t) = settles off n (request i t) + settled off t
settled off (_ ∷ t) = settled off t
