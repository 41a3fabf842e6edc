-- ===== src/AsyncCopy/Copies.antt =====
-- What the whole copy does, whatever the kernel answers and in whatever order.
use Prim.Native.String.{String}
use myapue.Base.{map, ℕ, zero, suc, ◌+◌, ◌%◌, ◌≡◌, ◌<◌, ◌≤◌, List, [], ◌∷◌, refl, arith, ◌∙◌}
use myapue.Posix.{
  Os, Prog, Trace, Call, Answer, Outcome, returns, exits, faults, spins, minus_one, nonneg, Status,
  bind_post, value,
}
use myapue.AsyncCopy.{
  bsz, int_end, Wrap, Counters, sweep, turn, copy, copy_opened, main, wraps, finish,
}
use myapue.AsyncCopy.Ledger.{begun, resent, request, settled}
use myapue.AsyncCopy.Moves.{
  tick, tick-size, tick_mono, reading, writing, used, total, HeldFrom, Moves, Stops,
}
use myapue.AsyncCopy.Blocks.{IsDirected}
use myapue.AsyncCopy.Directed.{copy_opened-IsDirected}
use myapue.AsyncCopy.Sweep.{Swept, sweep-Swept, HeldFrom-frame}

-- The books are in order.
pub record IsKept (off size : ℕ) (ws : List Wrap) (c : Counters) (t : Trace) : Type 0 where
  pub started : begun off t ≡ tick off c.offset
  pub passed_on : begun off t ≡ resent off t + total (reading off) ws
  pub ended : resent off t ≡ settled off t + total (writing off) ws
  pub counted : c.num_to_process ≡ total used ws
  pub aligned : c.offset % bsz ≡ 0
  pub near : c.offset < size + bsz
  pub held : HeldFrom 0 ws t

-- The block at the offset has been read and written once, if there is one.
abbrev pub IsCopied : ℕ → ℕ → Trace → Type 0
IsCopied off size t =
    (begun off t ≡ tick off size) × (resent off t ≡ tick off size) × (settled off t ≡ tick off size)

-- No write without its read, and no read of a block twice or of what is no block.
abbrev pub IsOnTheWay : ℕ → ℕ → Trace → Type 0
IsOnTheWay off size t = (begun off t ≤ tick off size) × (resent off t ≤ begun off t)

abbrev pub Copies : ℕ → ℕ → Outcome Status → Trace → Type 0
Copies off size (exits (nonneg n)) t = (n ≡ 0) × IsCopied off size t
Copies off size (exits minus_one) t = IsOnTheWay off size t
Copies off size spins t = IsOnTheWay off size t
Copies off size (returns minus_one) t = (begun off t ≡ 0) × (resent off t ≡ 0)
Copies off size faults t = int_end < size + bsz
Copies off size _ t = ⊥

-- No slot in use has nothing pending.
total-idle :
    (off : ℕ) (ws : List Wrap)
    → total used ws ≡ 0
    → (total (reading off) ws ≡ 0) × (total (writing off) ws ≡ 0)
total-idle off [] h = (refl, refl)
total-idle off (w ∷ ws) h = ground (arith, total-idle off ws (omega (arith, h)))

module _ (off size : ℕ) (ws : List Wrap) (c : Counters) (t : Trace)
    (v : IsKept off size ws c t) where
  IsKept-IsOnTheWay : IsOnTheWay off size t
  IsKept-IsOnTheWay = (
    omega (arith, v.started, tick_mono off c.offset size v.aligned v.near),
    omega (arith, v.passed_on),
  )

  IsKept-IsCopied : c.num_to_process ≡ 0 → size ≤ c.offset → IsCopied off size t
  IsKept-IsCopied idle reached =
      let (r, s) = total-idle off ws (omega (arith, v.counted, idle)) in
      (
        omega (arith, v.started, tick-size off c.offset size v.aligned reached v.near),
        omega (
          arith,
          v.started,
          v.passed_on,
          r,
          tick-size off c.offset size v.aligned reached v.near,
        ),
        omega (
          arith,
          v.started,
          v.passed_on,
          v.ended,
          r,
          s,
          tick-size off c.offset size v.aligned reached v.near,
        ),
      )

  Moves-IsKept :
      {ws' : List Wrap} {c' : Counters} {t' : Trace}
      → Moves off size ws c t ws' c' t'
      → HeldFrom 0 ws' t'
      → IsKept off size ws' c' t'
  Moves-IsKept m held = record {
    started = omega (arith, v.started, m.starts);
    passed_on = omega (arith, v.passed_on, m.passes_on);
    ended = omega (arith, v.ended, m.ends);
    counted = omega (arith, v.counted, m.counted);
    aligned = m.aligned;
    near = m.near;
    held = held;
  }

  Stops-IsOnTheWay : {t' : Trace} → Stops off size ws c t t' → IsOnTheWay off size t'
  Stops-IsOnTheWay m = (omega (arith, v.started, m.starts), omega (arith, v.passed_on, m.passes_on))

  Stops-Copies :
      (n : Status) (t' : Trace)
      → Swept off size 0 ws c t (exits n) t'
      → Copies off size (exits n) t'
  Stops-Copies minus_one t' h = Stops-IsOnTheWay h
  Stops-Copies (nonneg n) t' h = absurd h

-- A call that is none of the copy's reads, writes and returns.
Kept-later :
    {off size : ℕ} {ws : List Wrap} {c : Counters} {t : Trace} (call : Call) (a : Answer)
    → IsKept off size ws c t
    → begun off ((call, a) ∷ t) ≡ begun off t
    → resent off ((call, a) ∷ t) ≡ resent off t
    → settled off ((call, a) ∷ t) ≡ settled off t
    → ((j : ℕ) → request j ((call, a) ∷ t) ≡ request j t)
    → IsKept off size ws c ((call, a) ∷ t)
Kept-later {ws = ws} {t = t} call a v b r s q = record {
  started = b ∙ v.started;
  passed_on = omega (arith, v.passed_on, b, r);
  ended = omega (arith, v.ended, r, s);
  counted = v.counted;
  aligned = v.aligned;
  near = v.near;
  held = HeldFrom-frame 0 ws t ((call, a) ∷ t) v.held (λ j le. q j);
}

module _ (os : Os) (in_fd out_fd off size : ℕ) where
  module _ (ws : List Wrap) (c : Counters) (again : Prog Status)
      (goes_on : (t : Trace)
        → IsKept off size ws c t
        → Copies off size (again t).0 (again t).1) where
    turn-Copies :
        (t : Trace)
        → IsKept off size ws c t
        → Copies off size
            (turn os in_fd out_fd size ws c again t).0
            (turn os in_fd out_fd size ws c again t).1
    unfolding turn finish
    turn-Copies t v =
        let asked : Call = Call.aio_suspend (map (λ w. w.listed) ws) in
        let a = os t asked in
        let v₁ = Kept-later asked a v refl refl refl (λ j. refl) in
        let v₂ =
          Kept-later (Call.report "aio_suspend") (os ((asked, a) ∷ t) (Call.report "aio_suspend"))
            v₁ refl refl refl (λ j. refl) in
        ground (arith, goes_on t v, goes_on _ v₁, goes_on _ v₂, IsKept-IsCopied off size ws c t v)

  copy-Copies :
      (rounds : ℕ) (ws : List Wrap) (c : Counters) (t : Trace)
      → IsKept off size ws c t
      → Copies off size
          (copy os in_fd out_fd size rounds ws c t).0
          (copy os in_fd out_fd size rounds ws c t).1
  unfolding copy
  copy-Copies zero ws c t v = IsKept-IsOnTheWay off size ws c t v
  copy-Copies (suc rounds) ws c t v =
      bind_post (Swept off size 0 ws c t) (Copies off size)
        (λ r. turn os in_fd out_fd size r.0 r.1 (copy os in_fd out_fd size rounds r.0 r.1))
        (λ r t' h.
          turn-Copies r.0 r.1 (copy os in_fd out_fd size rounds r.0 r.1)
            (copy-Copies rounds r.0 r.1) t' (Moves-IsKept off size ws c t v h.0 h.1))
        (λ n t' h. Stops-Copies off size ws c t v n t' h) (λ n t' h. absurd h) (λ t' h. h)
        (λ t' h. absurd h) (sweep os in_fd out_fd size 0 ws c t)
        (sweep-Swept os in_fd out_fd off size 0 ws c t v.aligned v.near (omega (arith, v.counted))
          v.held)

  pub copy_opened-Copies :
      (rounds : ℕ) (t : Trace)
      → os t (Call.fstat in_fd) ≡ Answer.ok 0 (size ∷ [])
      → begun off t ≡ 0
      → resent off t ≡ 0
      → settled off t ≡ 0
      → Copies off size
          (copy_opened os rounds in_fd out_fd t).0
          (copy_opened os rounds in_fd out_fd t).1
  unfolding copy_opened
  copy_opened-Copies rounds t sized b r s = rw sized (
      copy-Copies rounds wraps (record { offset = 0; num_to_process = 0 })
        ((Call.fstat in_fd, Answer.ok 0 (size ∷ [])) ∷ t)
        (record {
          started = ground (arith, b);
          passed_on = ground (arith, b, r);
          ended = ground (arith, r, s);
          counted = refl;
          aligned = refl;
          near = omega arith;
          held = ground arith;
        }))

-- The requests of main, with the descriptors that its two opens have returned.
abbrev pub IsDirectedBy : Os → ℕ → List String → Trace → Type 0
IsDirectedBy os size (program ∷ from ∷ to ∷ []) t =
    let i = os [] (Call.open_file from) in
    let o = os ((Call.open_file from, i) ∷ []) (Call.open_file to) in
    IsDirected (value i) (value o) size t
IsDirectedBy os size _ t = t ≡ []

-- For any answers of the kernel in any order, where the file's size is `size`, and for the block at
-- any offset: when main exits with 0, the block has been read once, written once and that
-- write has returned its whole count, if the offset is a multiple of BSZ below the size, and has
-- not been touched otherwise; when main exits with -1, or is still running after any number of
-- rounds, the block has been read at most once, and only if it is one, and written at most as
-- often as read; main returns only before it has started a request, and it computes an offset
-- beyond the range of int only for a size above 2 ^ 31 - BSZ. However it ends, with two arguments
-- every read is of BSZ bytes from the descriptor of the first file; every write is to the descriptor
-- of the second, from a slot whose last read was at the offset that is written, of the count that
-- aio_return has just given for that slot, which is BSZ unless the block reaches the size; and
-- aio_fsync is of the second. With another number of arguments no call is made.
pub main-Copies :
    (os : Os) (rounds size : ℕ) (argv : List String)
    → ((t : Trace) (fd : ℕ) → os t (Call.fstat fd) ≡ Answer.ok 0 (size ∷ []))
    → (off : ℕ)
    → let run = main os rounds argv [] in
      Copies off size run.0 run.1 × IsDirectedBy os size argv run.1
unfolding main
main-Copies os rounds size [] sized off = ((refl, refl), refl)
main-Copies os rounds size (program ∷ []) sized off = ((refl, refl), refl)
main-Copies os rounds size (program ∷ from ∷ []) sized off = ((refl, refl), refl)
main-Copies os rounds size (program ∷ from ∷ to ∷ other ∷ rest) sized off = ((refl, refl), refl)
main-Copies os rounds size (program ∷ from ∷ to ∷ []) sized off =
    let i = os [] (Call.open_file from) in
    let t : Trace = (Call.open_file from, i) ∷ [] in
    let o = os t (Call.open_file to) in
    let t₁ : Trace = (Call.open_file to, o) ∷ t in
    ground (
      arith,
      copy_opened-Copies os (value i) (value o) off size rounds t₁ (sized t₁ (value i)) refl refl
          refl,
      copy_opened-IsDirected os (value i) (value o) size rounds t₁ (sized t₁ (value i)) tt,
    )
