-- ===== src/Transfer.antt =====
-- readn and writen of 14.advio/06_readn.c: transfers that go on after a short count.
pub mod Whole
mod Examples
use Prim.Native.String.{String}
use myapue.Base.{
  ℕ, zero, suc, ◌+◌, ◌*◌, ◌≤◌, ◌<◌, ◌/◌, ◌==◌, ltb, leb, if◌then◌else◌, ◌||◌, ◌⊎◌, not, Bool, true,
  false, ◌≡◌, ◌∙◌, refl, arith, List, [], ◌∷◌, length, get_or, Option, none, some,
}
use myapue.Posix.{
  Os, Prog, Trace, Status, nonneg, minus_one, pure, exit, ◌>>=◌, ◌>>◌, call, print, failed,
  errno_of,
}
use myapue.Posix.{
  value, ok, fail, out_of, Call, Answer, Outcome, returns, exits, execs, faults, spins, in_bounds,
  fault, bind_post,
}
use myapue.Posix.Ledger.{open_fds, failures, without, closes, received}
use myapue.Base.{◌++◌, ◌-◌, ◌%◌, ◌^◌, take, drop}

-- n_left -= k, on a size_t.
abbrev pub sub_size : ℕ → ℕ → ℕ
sub_size n_left k = (n_left + 2 ^ 64 - k) % 2 ^ 64

module _ (os : Os) where
  -- What a round of readn does with the answer of read; `again` is the loop with the `n_left` and
  -- the bytes of the next round.
  pub read_next :
      (ℕ → List ℕ → Prog (Status × List ℕ)) → ℕ → ℕ → List ℕ → Answer → Prog (Status × List ℕ)
  read_next again n n_left bytes (fail e) =
      if n_left == n then pure (minus_one, bytes) else pure (nonneg (n - n_left), bytes)
  read_next again n n_left bytes (ok k out) =
      if k == 0 then pure (nonneg (n - n_left), bytes) else again (sub_size n_left k) (bytes ++ out)

  -- The loop, `while (n_left > 0)`, with fuel; `bytes` is what lies in the buffer before `ptr`.
  pub read_loop : ℕ → ℕ → ℕ → ℕ → List ℕ → Prog (Status × List ℕ)
  unfolding read_next
  read_loop zero fd n n_left bytes t = (spins, t)
  read_loop (suc fuel) fd n zero bytes t = (returns (nonneg n, bytes), t)
  read_loop (suc fuel) fd n (suc left) bytes t =
      let c = Call.read fd (suc left) in
      read_next (read_loop fuel fd n) n (suc left) bytes (os t c) ((c, os t c) ∷ t)

  -- The returned count, and the bytes stored from the first `ptr` on.
  pub readn : ℕ → ℕ → Prog (Status × List ℕ)
  readn fd n = read_loop (n + 1) fd n n []

  pub write_next : (ℕ → List ℕ → Prog Status) → ℕ → ℕ → List ℕ → Answer → Prog Status
  write_next again n n_left ptr (fail e) =
      if n_left == n then pure minus_one else pure (nonneg (n - n_left))
  write_next again n n_left ptr (ok k out) =
      if k == 0 then pure (nonneg (n - n_left)) else again (sub_size n_left k) (drop k ptr)

  -- The loop of writen; `ptr` is the part of the buffer from `ptr` on.
  pub write_loop : ℕ → ℕ → ℕ → ℕ → List ℕ → Prog Status
  unfolding write_next
  write_loop zero fd n n_left ptr t = (spins, t)
  write_loop (suc fuel) fd n zero ptr t = (returns (nonneg n), t)
  write_loop (suc fuel) fd n (suc left) ptr t =
      let c = Call.write fd (take (suc left) ptr) in
      write_next (write_loop fuel fd n) n (suc left) ptr (os t c) ((c, os t c) ∷ t)

  pub writen : ℕ → List ℕ → ℕ → Prog Status
  writen fd ptr n = write_loop (n + 1) fd n n ptr
