-- ===== src/Copy.antt =====
-- The loops that copy the standard input to the standard output: 03.fileio/03_mycat.c, main of
-- 10.signals/18_sigtstp.c, and 01.intro/02_mycat.c, which does not look at what write has taken.
pub mod Whole
mod Examples
use myapue.Base.{
  ℕ, zero, suc, ◌==◌, ltb, if◌then◌else◌, ◌&&◌, not, Bool, true, false, List, [], ◌∷◌, take,
}
use myapue.Posix.{
  Os, Prog, Trace, Status, nonneg, minus_one, pure, ◌>>=◌, ◌>>◌, call, print, failed, value, ok,
  fail, Call, Answer, spins,
}

-- BUFSIZE of 03_mycat.c, BUFFSIZE of 02_mycat.c
abbrev pub bufsize : ℕ
bufsize = 4096

-- BUFSIZ of stdio, which 18_sigtstp.c uses
abbrev pub bufsiz : ℕ
bufsiz = 8192

-- Whether write(..) != n, or write(..) < n, does not hold.
abbrev pub is_all : Answer → ℕ → Bool
is_all w n = not (failed w) && (value w == n)

abbrev pub is_enough : Answer → ℕ → Bool
is_enough w n = not (failed w) && not (ltb (value w) n)

module _ (os : Os) where
  -- What follows a write; `again` is the rest of the loop.
  pub written : Prog Status → Bool → Prog Status
  written again true = again
  written again false = do print os "write error"; pure minus_one

  -- What follows a read; the answer of write is judged by `accepts`.
  pub read_next : (Answer → ℕ → Bool) → Prog Status → Answer → Prog Status
  unfolding written
  read_next accepts again (ok zero out) = pure (nonneg 0)
  read_next accepts again (ok (suc n) out) = do
    w ← call os (Call.write 1 (take (suc n) out))
    written again (accepts w (suc n))
  read_next accepts again (fail e) = do print os "read error"; pure minus_one

  -- The loop, for a number of rounds.
  pub copy : (Answer → ℕ → Bool) → ℕ → ℕ → Prog Status
  unfolding read_next
  copy accepts size zero t = (spins, t)
  copy accepts size (suc rounds) t =
      read_next accepts (copy accepts size rounds) (os t (Call.read 0 size))
        ((Call.read 0 size, os t (Call.read 0 size)) ∷ t)

  -- main of 03_mycat.c
  pub mycat : ℕ → Prog Status
  unfolding copy
  mycat rounds = copy is_all bufsize rounds

  -- main of 18_sigtstp.c; `handler` is the handler's number.
  pub restarted : ℕ → ℕ → Prog Status
  unfolding copy
  restarted handler rounds = do
    a ← call os (Call.sigaction 20 handler)
    if failed a
        then (do print os "sigaction error"; pure minus_one)
        else copy is_enough bufsiz rounds

  -- What follows a read in 02_mycat.c.
  pub read_next_unchecked : Prog Status → Answer → Prog Status
  read_next_unchecked again (ok zero out) = pure (nonneg 0)
  read_next_unchecked again (ok (suc n) out) = do
    w ← call os (Call.write 1 (take (suc n) out))
    if failed w then (do print os "error write"; again) else again
  read_next_unchecked again (fail e) = do print os "error read"; pure (nonneg 0)

  -- main of 02_mycat.c
  pub mycat_unchecked : ℕ → Prog Status
  unfolding read_next_unchecked
  mycat_unchecked zero t = (spins, t)
  mycat_unchecked (suc rounds) t =
      read_next_unchecked (mycat_unchecked rounds) (os t (Call.read 0 bufsize))
        ((Call.read 0 bufsize, os t (Call.read 0 bufsize)) ∷ t)
