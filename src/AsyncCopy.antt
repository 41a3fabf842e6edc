-- ===== src/AsyncCopy.antt =====
-- 14.advio/05_rot13.c: a file is copied block by block through slots for asynchronous reads and
-- writes.
pub mod Ledger
pub mod Moves
pub mod Visit
pub mod Sweep
pub mod Blocks
pub mod Directed
pub mod Copies
mod Examples
use Prim.Native.String.{String}
use myapue.Base.{
  ℕ, zero, suc, ◌+◌, ◌-◌, ◌^◌, ◌==◌, ◌&&◌, ◌||◌, not, ltb, leb, if◌then◌else◌, Bool, true, false,
  List, [], ◌∷◌, map, get_or,
}
use myapue.Posix.{
  Os, Prog, Status, nonneg, minus_one, pure, exit, ◌>>=◌, ◌>>◌, call, print, failed, fault, spins,
}
use myapue.Posix.{value, out_of, Call, Answer, then_run}

abbrev pub bsz : ℕ
bsz = 4096

abbrev pub einprogress : ℕ
einprogress = 115

abbrev pub int_end : ℕ
int_end = 2 ^ 31

pub data Operation : Type 0 where
  unused : Operation
  read_pending : Operation
  write_pending : Operation

-- struct aio_wrap with the fields of its aiocb, and whether aio_list holds its address. The
-- buffers keep what the kernel puts there.
pub record Wrap : Type 0 where
  pub op : Operation
  pub last : Bool
  pub aio_fildes : ℕ
  pub aio_offset : ℕ
  pub aio_nbytes : ℕ
  pub listed : Bool

abbrev pub init_wrap : Wrap
init_wrap = record {
  op = unused;
  last = false;
  aio_fildes = 0;
  aio_offset = 0;
  aio_nbytes = 0;
  listed = false;
}

pub record Counters : Type 0 where
  pub offset : ℕ
  pub num_to_process : ℕ

-- aio_error answers that the request is still under way, or that it succeeded.
abbrev pub in_progress : Answer → Bool
in_progress (Answer.ok v out) = v == einprogress
in_progress (Answer.fail e) = false

abbrev pub completed : Answer → Bool
completed (Answer.ok v out) = v == 0
completed (Answer.fail e) = false

abbrev pub wraps : List Wrap
wraps =
    init_wrap ∷ init_wrap ∷ init_wrap ∷ init_wrap ∷ init_wrap ∷ init_wrap ∷ init_wrap ∷ init_wrap
    ∷ []

module _ (os : Os) where
  abbrev pub die : {A : Type 0} → String → Prog A
  die message = do print os message; exit minus_one

  module _ (in_fd out_fd size : ℕ) where
    -- The case UNUSED; `offset` is an int, and running over is undefined.
    pub start_read : ℕ → Wrap → Counters → Prog (Wrap × Counters)
    start_read i w c =
        if leb size c.offset
        then pure (w, c)
        else if leb int_end (c.offset + bsz)
        then fault
        else do
          r ← call os (Call.aio_read i in_fd c.offset bsz)
          if failed r
              then die "error in aio_read"
              else pure (
                record {
                  op = read_pending;
                  last = w.last || leb size (c.offset + bsz);
                  aio_fildes = in_fd;
                  aio_offset = c.offset;
                  aio_nbytes = bsz;
                  listed = true;
                },
                record { offset = c.offset + bsz; num_to_process = c.num_to_process + 1 },
              )

    -- The case READ_PENDING.
    pub finish_read : ℕ → Wrap → Counters → Prog (Wrap × Counters)
    finish_read i w c = do
      e ← call os (Call.aio_error i)
      if in_progress e then pure (w, c) else if not (completed e) then die "aio_error" else do
        n ← call os (Call.aio_return i)
        if failed n
            then die "error aio_return"
            else if not (value n == bsz) && not w.last
            then die "error read count"
            else do
              r ← call os (Call.aio_write i out_fd w.aio_offset (value n))
              if failed r
                  then die "aio_write"
                  else pure (
                    record w { op = write_pending; aio_fildes = out_fd; aio_nbytes = value n },
                    c,
                  )

    -- The case WRITE_PENDING.
    pub finish_write : ℕ → Wrap → Counters → Prog (Wrap × Counters)
    finish_write i w c = do
      e ← call os (Call.aio_error i)
      if in_progress e then pure (w, c) else if not (completed e) then die "aio_error error" else do
        n ← call os (Call.aio_return i)
        if failed n
            then die "aio_return error"
            else if not (value n == w.aio_nbytes)
            then die "short write"
            else pure (
              record w { op = unused; listed = false },
              record c { num_to_process = c.num_to_process - 1 },
            )

    -- The switch.
    pub visit : Operation → ℕ → Wrap → Counters → Prog (Wrap × Counters)
    visit unused i w c = start_read i w c
    visit read_pending i w c = finish_read i w c
    visit write_pending i w c = finish_write i w c

    -- The for loop, from slot i on.
    pub sweep : ℕ → List Wrap → Counters → Prog (List Wrap × Counters)
    sweep i [] c = pure ([], c)
    sweep i (w ∷ ws) c = do r ← visit w.op i w c; s ← sweep (suc i) ws r.1; pure (r.0 ∷ s.0, s.1)

    pub finish : Prog Status
    finish = do call os (Call.aio_fsync out_fd); exit (nonneg 0)

    -- What follows the for loop in a round, `again` being the rounds after it.
    pub turn : List Wrap → Counters → Prog Status → Prog Status
    unfolding finish
    turn ws c again =
        if c.num_to_process == 0 then if leb size c.offset then finish else again else do
          s ← call os (Call.aio_suspend (map (λ w. w.listed) ws))
          if failed s then (do print os "aio_suspend"; again) else again

    -- The while loop, for a number of rounds.
    pub copy : ℕ → List Wrap → Counters → Prog Status
    unfolding sweep turn
    copy zero ws c t = (spins, t)
    copy (suc rounds) ws c t = then_run (sweep 0 ws c t) (λ r. turn r.0 r.1 (copy rounds r.0 r.1))

  -- The size of a file whose fstat fails is undefined.
  pub copy_opened : ℕ → ℕ → ℕ → Prog Status
  unfolding copy
  copy_opened rounds in_fd out_fd = do
    s ← call os (Call.fstat in_fd)
    if failed s
        then fault
        else copy in_fd out_fd (get_or (out_of s) 0 0) rounds wraps
            (record { offset = 0; num_to_process = 0 })

  pub main : ℕ → List String → Prog Status
  unfolding copy_opened
  main rounds (program ∷ from ∷ to ∷ []) = do
    i ← call os (Call.open_file from)
    if failed i then pure minus_one else do
      o ← call os (Call.open_file to)
      if failed o then pure minus_one else copy_opened rounds (value i) (value o)
  main rounds argv = pure minus_one
