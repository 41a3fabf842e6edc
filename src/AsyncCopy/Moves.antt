-- ===== src/AsyncCopy/Moves.antt =====
-- The books that the copy keeps: what each step does to the slots and to the trace.
use myapue.Base.{
  ◌%◌, ℕ, suc, ◌+◌, ◌==◌, ◌&&◌, ltb, ◌≡◌, ◌<◌, ◌≤◌, List, [], ◌∷◌, Option, none, some, arith,
}
use myapue.Posix.{Trace}
use myapue.AsyncCopy.{bsz, Operation, unused, read_pending, write_pending, Wrap, Counters}
use myapue.AsyncCopy.Ledger.{one_if, begun, resent, request, settled}

-- 1 for the offset of a block below a bound, and 0 for another.
abbrev pub tick : ℕ → ℕ → ℕ
tick off o = one_if (off % bsz == 0 && ltb off o)

pub tick-next : (off o : ℕ) → o % bsz ≡ 0 → tick off (o + bsz) ≡ tick off o + one_if (o == off)
tick-next off o h = ground arith

-- The blocks are those below the size.
pub tick-size :
    (off o size : ℕ) → o % bsz ≡ 0 → size ≤ o → o < size + bsz → tick off o ≡ tick off size
tick-size off o size h reached near = ground arith

pub aligned-next : (o : ℕ) → o % bsz ≡ 0 → (o + bsz) % bsz ≡ 0
aligned-next o h = ground arith

pub tick_mono : (off o size : ℕ) → o % bsz ≡ 0 → o < size + bsz → tick off o ≤ tick off size
tick_mono off o size h near = ground arith

-- The operation of a slot counts at its offset.
abbrev pub reads : Operation → ℕ → ℕ
reads read_pending same = same
reads _ same = 0

abbrev pub writes : Operation → ℕ → ℕ
writes write_pending same = same
writes _ same = 0

abbrev pub busy : Operation → ℕ
busy unused = 0
busy _ = 1

module _ (off : ℕ) where
  abbrev pub reading : Wrap → ℕ
  reading w = reads w.op (one_if (w.aio_offset == off))

  abbrev pub writing : Wrap → ℕ
  writing w = writes w.op (one_if (w.aio_offset == off))

abbrev pub total : (Wrap → ℕ) → List Wrap → ℕ
total f [] = 0
total f (w ∷ ws) = f w + total f ws

abbrev pub used : Wrap → ℕ
used w = busy w.op

-- What the trace says of a slot's write.
abbrev pub Awaits : Operation → ℕ → ℕ → Option (ℕ × ℕ) → Type 0
Awaits unused o n r = Unit {0}
Awaits read_pending o n r = r ≡ none
Awaits write_pending o n r = r ≡ some (o, n)

abbrev pub Held : ℕ → Wrap → Trace → Type 0
Held i w t = Awaits w.op w.aio_offset w.aio_nbytes (request i t)

abbrev pub HeldFrom : ℕ → List Wrap → Trace → Type 0
HeldFrom i [] t = Unit {0}
HeldFrom i (w ∷ ws) t = Held i w t × HeldFrom (suc i) ws t

-- What a step does to the books, at the block at `off`: the slots `ws` become `ws'`, and so on.
pub record Moves (off size : ℕ) (ws : List Wrap) (c : Counters) (t : Trace) (ws' : List Wrap)
    (c' : Counters) (t' : Trace) : Type 0 where
  pub starts : begun off t' + tick off c.offset ≡ begun off t + tick off c'.offset
  pub passes_on :
      begun off t' + resent off t + total (reading off) ws
      ≡ begun off t + resent off t' + total (reading off) ws'
  pub ends :
      resent off t' + settled off t + total (writing off) ws
      ≡ resent off t + settled off t' + total (writing off) ws'
  pub counted : c'.num_to_process + total used ws ≡ c.num_to_process + total used ws'
  pub aligned : c'.offset % bsz ≡ 0
  pub near : c'.offset < size + bsz

-- The same for a step that ends the process.
pub record Stops (off size : ℕ) (ws : List Wrap) (c : Counters) (t t' : Trace) : Type 0 where
  pub starts : begun off t' + tick off c.offset ≤ begun off t + tick off size
  pub passes_on : resent off t' + begun off t ≤ begun off t' + resent off t + total (reading off) ws
