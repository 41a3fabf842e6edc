-- ===== src/Sockets/InitServer.antt =====
-- init_server of 16.socket/03_initserver.c.
use Prim.Native.String.{String}
use myapue.Base.{ℕ, ◌==◌, if◌then◌else◌, ◌||◌, Bool, true, false, ◌≡◌, arith, [], ◌∷◌, some, suc}
use myapue.Posix.{Os, Prog, Trace, pure, ◌>>=◌, ◌>>◌, call, failed, value}
use myapue.Posix.{Call, Answer, returns, Outcome, errno_of}
use myapue.Posix.Ledger.{open_fds, failures, last_error}

-- The values that Linux gives the types.
abbrev pub sock_stream : ℕ
sock_stream = 1

abbrev pub sock_seqpacket : ℕ
sock_seqpacket = 5

-- What the caller sees: a descriptor, or -1 with the value left in `errno`.
pub data Result : Type 0 where
  opened : (fd : ℕ) → Result
  error : (errno : ℕ) → Result

module _ (os : Os) where
  -- The label `error`: `errno` is saved over the call of `close`.
  pub give_up : (tmp_errno fd : ℕ) → Prog Result
  give_up tmp_errno fd = do call os (Call.close fd); pure (error tmp_errno)

  -- The second condition, whose `listen` is called only where the type wants it.
  pub listen_if : Bool → ℕ → ℕ → Prog Answer
  listen_if false fd queue_len = pure (Answer.ok 0 [])
  listen_if true fd queue_len = call os (Call.listen fd queue_len)

  unfoldable pub init_server : ℕ → ℕ → String → ℕ → Prog Result
  unfolding give_up listen_if
  init_server family kind addr queue_len = do
    a ← call os (Call.socket family kind)
    if failed a then pure (error (errno_of a)) else do
      b ← call os (Call.bind (value a) addr)
      if failed b then give_up (errno_of b) (value a) else do
        l ← listen_if (kind == sock_stream || kind == sock_seqpacket) (value a) queue_len
        if failed l then give_up (errno_of l) (value a) else pure (opened (value a))

-- How a call may end: with a descriptor, the only one that it leaves open, and no failed call; or
-- with an error, that of its one failed call, and no descriptor left open.
abbrev pub Opens : Trace → Outcome Result → Trace → Type 0
Opens t (returns (opened fd)) t' = (open_fds t' ≡ fd ∷ open_fds t) × (failures t' ≡ failures t)
Opens t (returns (error e)) t' =
    (open_fds t' ≡ open_fds t) × (last_error t' ≡ some e) × (failures t' ≡ suc (failures t))
Opens t _ t' = ⊥

-- Whatever the system answers, init_server returns, in one of two ways. Either it hands out a
-- descriptor, the only one that it leaves open, and no call failed; or it reports an error after
-- the first call that failed, leaves no descriptor open, and `errno` is that call's.
pub init_server-Opens :
    (os : Os) (family kind : ℕ) (addr : String) (queue_len : ℕ) (t : Trace)
    → let run = init_server os family kind addr queue_len t in Opens t run.0 run.1
unfolding init_server
init_server-Opens os family kind addr queue_len t = ground arith
