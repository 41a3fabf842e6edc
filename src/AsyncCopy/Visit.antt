-- ===== src/AsyncCopy/Visit.antt =====
-- What the switch does to a slot.
use myapue.Base.{ℕ, ◌+◌, ◌%◌, ◌≡◌, ◌≢◌, ◌<◌, ◌≤◌, [], ◌∷◌, arith}
use myapue.Posix.{Os, Trace, Outcome, returns, exits, faults, minus_one}
use myapue.AsyncCopy.{
  bsz, int_end, Operation, unused, read_pending, write_pending, Wrap, Counters, start_read,
  finish_read, finish_write, visit,
}
use myapue.AsyncCopy.Ledger.{request}
use myapue.AsyncCopy.Moves.{tick-next, tick_mono, aligned-next, used, Held, Moves, Stops}

module _ (off size i : ℕ) (w : Wrap) (c : Counters) (t : Trace) where
  abbrev pub Visited : Outcome (Wrap × Counters) → Trace → Type 0
  Visited (returns (w', c')) t' = Moves off size (w ∷ []) c t (w' ∷ []) c' t' × Held i w' t'
  Visited (exits minus_one) t' = Stops off size (w ∷ []) c t t'
  Visited faults t' = int_end < size + bsz
  Visited _ t' = ⊥

  module _ (os : Os) (in_fd out_fd : ℕ) (aligned : c.offset % bsz ≡ 0)
      (near : c.offset < size + bsz) (enough : used w ≤ c.num_to_process) (held : Held i w t) where
    start_read-Visited :
        w.op ≡ unused
        → Visited
            (start_read os in_fd out_fd size i w c t).0
            (start_read os in_fd out_fd size i w c t).1
    unfolding start_read
    start_read-Visited op = ground (
      arith,
      op,
      tick-next off c.offset aligned,
      aligned-next c.offset aligned,
      tick_mono off c.offset size aligned near,
    )

    finish_read-Visited :
        w.op ≡ read_pending
        → Visited
            (finish_read os in_fd out_fd size i w c t).0
            (finish_read os in_fd out_fd size i w c t).1
    unfolding finish_read
    finish_read-Visited op = ground (arith, op, tick_mono off c.offset size aligned near)

    finish_write-Visited :
        w.op ≡ write_pending
        → Visited
            (finish_write os in_fd out_fd size i w c t).0
            (finish_write os in_fd out_fd size i w c t).1
    unfolding finish_write
    finish_write-Visited op = ground (arith, op, tick_mono off c.offset size aligned near)

    pub visit-Visited :
        (o : Operation)
        → w.op ≡ o
        → Visited (visit os in_fd out_fd size o i w c t).0 (visit os in_fd out_fd size o i w c t).1
    unfolding visit
    visit-Visited unused op = start_read-Visited op
    visit-Visited read_pending op = finish_read-Visited op
    visit-Visited write_pending op = finish_write-Visited op

-- The switch leaves the other slots' writes alone.
module _ (i j : ℕ) (t : Trace) where
  abbrev pub Leaves : {A : Type 0} → Outcome A → Trace → Type 0
  Leaves (returns _) t' = i ≢ j → request j t' ≡ request j t
  Leaves _ t' = Unit {0}

  module _ (os : Os) (in_fd out_fd size : ℕ) (w : Wrap) (c : Counters) where
    start_read-Leaves :
        Leaves
          (start_read os in_fd out_fd size i w c t).0
          (start_read os in_fd out_fd size i w c t).1
    unfolding start_read
    start_read-Leaves = ground arith

    finish_read-Leaves :
        Leaves
          (finish_read os in_fd out_fd size i w c t).0
          (finish_read os in_fd out_fd size i w c t).1
    unfolding finish_read
    finish_read-Leaves = ground arith

    finish_write-Leaves :
        Leaves
          (finish_write os in_fd out_fd size i w c t).0
          (finish_write os in_fd out_fd size i w c t).1
    unfolding finish_write
    finish_write-Leaves = ground arith

    pub visit-Leaves :
        (o : Operation)
        → Leaves (visit os in_fd out_fd size o i w c t).0 (visit os in_fd out_fd size o i w c t).1
    unfolding visit
    visit-Leaves unused = start_read-Leaves
    visit-Leaves read_pending = finish_read-Leaves
    visit-Leaves write_pending = finish_write-Leaves
