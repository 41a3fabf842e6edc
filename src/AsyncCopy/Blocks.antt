-- ===== src/AsyncCopy/Blocks.antt =====
-- Which descriptors and counts the copy's requests have, and which block a slot writes.
use myapue.Base.{
  ◌⊎◌, ◌||◌, not, leb, ℕ, suc, ◌+◌, ◌==◌, ◌≡◌, ◌≢◌, ◌≤◌, ◌<◌, if◌then◌else◌, Bool, true, List, [],
  ◌∷◌, Option, none, some, refl, arith, ◌∙◌,
}
use myapue.Posix.{
  Os, Trace, Call, Answer, Outcome, returns, exits, faults, spins, execs, then_run, bind_post, pure,
}
use myapue.AsyncCopy.{
  bsz, Operation, unused, read_pending, write_pending, Wrap, Counters, start_read, finish_read,
  finish_write, visit, sweep,
}

-- The offset of the last read that a slot has started, which is what its buffer is for.
abbrev pub fetched : ℕ → Trace → Option ℕ
fetched i [] = none
fetched i ((Call.aio_read j fd o n, Answer.ok _ _) ∷ t) = if j == i then some o else fetched i t
fetched i (_ ∷ t) = fetched i t

-- A call that has just returned the count of a slot's request.
abbrev pub IsCountOf : ℕ → ℕ → Trace → Type 0
IsCountOf i n ((Call.aio_return j, Answer.ok k _) ∷ t) = (j ≡ i) × (k ≡ n)
IsCountOf i n _ = ⊥

module _ (in_fd out_fd size : ℕ) where
  -- Every read is of a whole block from the source. Every write is to the target, from a slot whose
  -- last read was at the same offset and has just returned the count that is written; the count
  -- is BSZ, but for the last block. The target is what is flushed at the end.
  abbrev pub IsDirected : Trace → Type 0
  IsDirected [] = Unit {0}
  IsDirected ((Call.aio_read i fd o n, a) ∷ t) = (fd ≡ in_fd) × (n ≡ bsz) × IsDirected t
  IsDirected ((Call.aio_write i fd o n, a) ∷ t) =
      (fd ≡ out_fd)
      × (fetched i t ≡ some o)
      × IsCountOf i n t
      × ((n ≡ bsz) ⊎ (size ≤ o + bsz))
      × IsDirected t
  IsDirected ((Call.aio_fsync fd, a) ∷ t) = (fd ≡ out_fd) × IsDirected t
  IsDirected (_ ∷ t) = IsDirected t

-- `last` is set only where the size has been reached, and a pending read is at the slot's offset.
abbrev pub ReadAt : Operation → ℕ → Bool → ℕ → Option ℕ → Type 0
ReadAt read_pending size last o r = (r ≡ some o) × ((not last || leb size (o + bsz)) ≡ true)
ReadAt _ size last o r = Unit {0}

abbrev pub Follows : ℕ → ℕ → Wrap → ℕ → Trace → Type 0
Follows size i w reached t =
    ((not w.last || leb size reached) ≡ true) × ReadAt w.op size w.last w.aio_offset (fetched i t)

module _ (in_fd out_fd size i : ℕ) (c : Counters) (t : Trace) where
  abbrev pub Directs : Outcome (Wrap × Counters) → Trace → Type 0
  Directs (returns (w', c')) t' =
      IsDirected in_fd out_fd size t'
      × Follows size i w' c'.offset t'
      × (c.offset ≤ c'.offset)
      × ((j : ℕ) → i ≢ j → fetched j t' ≡ fetched j t)
  Directs _ t' = IsDirected in_fd out_fd size t'

  module _ (os : Os) (w : Wrap) (held : Follows size i w c.offset t)
      (so_far : IsDirected in_fd out_fd size t) where
    start_read-Directs :
        w.op ≡ unused
        → Directs
            (start_read os in_fd out_fd size i w c t).0
            (start_read os in_fd out_fd size i w c t).1
    unfolding start_read
    start_read-Directs op = ground (arith, op)

    finish_read-Directs :
        w.op ≡ read_pending
        → Directs
            (finish_read os in_fd out_fd size i w c t).0
            (finish_read os in_fd out_fd size i w c t).1
    unfolding finish_read
    finish_read-Directs op = ground (arith, op)

    finish_write-Directs :
        w.op ≡ write_pending
        → Directs
            (finish_write os in_fd out_fd size i w c t).0
            (finish_write os in_fd out_fd size i w c t).1
    unfolding finish_write
    finish_write-Directs op = ground (arith, op)

    pub visit-Directs :
        (o : Operation)
        → w.op ≡ o
        → Directs (visit os in_fd out_fd size o i w c t).0 (visit os in_fd out_fd size o i w c t).1
    unfolding visit
    visit-Directs unused op = start_read-Directs op
    visit-Directs read_pending op = finish_read-Directs op
    visit-Directs write_pending op = finish_write-Directs op

abbrev pub FollowsFrom : ℕ → ℕ → List Wrap → ℕ → Trace → Type 0
FollowsFrom size i [] reached t = Unit {0}
FollowsFrom size i (w ∷ ws) reached t =
    Follows size i w reached t × FollowsFrom size (suc i) ws reached t

Follows-later :
    (size i : ℕ) (w : Wrap) (reached reached' : ℕ) (t t' : Trace)
    → Follows size i w reached t
    → reached ≤ reached'
    → fetched i t' ≡ fetched i t
    → Follows size i w reached' t'
Follows-later size i w reached reached' t t' h more same = (ground (arith, h.0), rw same h.1)

pub FollowsFrom-later :
    (size i : ℕ) (ws : List Wrap) (reached reached' : ℕ) (t t' : Trace)
    → FollowsFrom size i ws reached t
    → reached ≤ reached'
    → ((j : ℕ) → i ≤ j → fetched j t' ≡ fetched j t)
    → FollowsFrom size i ws reached' t'
FollowsFrom-later size i [] reached reached' t t' h more same = tt
FollowsFrom-later size i (w ∷ ws) reached reached' t t' h more same = (
  Follows-later size i w reached reached' t t' h.0 more (same i (omega arith)),
  FollowsFrom-later size (suc i) ws reached reached' t t' h.1 more (λ j le. same j (omega arith)),
)

module _ (in_fd out_fd size i : ℕ) (c : Counters) (t : Trace) where
  abbrev pub DirectsAll : Outcome (List Wrap × Counters) → Trace → Type 0
  DirectsAll (returns (ws', c')) t' =
      IsDirected in_fd out_fd size t'
      × FollowsFrom size i ws' c'.offset t'
      × (c.offset ≤ c'.offset)
      × ((j : ℕ) → j < i → fetched j t' ≡ fetched j t)
  DirectsAll _ t' = IsDirected in_fd out_fd size t'

-- The slots behind the first, after it has been visited.
module _ (in_fd out_fd size i : ℕ) (c : Counters) (t : Trace) (w' : Wrap) (c' : Counters)
    (t' : Trace) (first : Directs in_fd out_fd size i c t (returns (w', c')) t') where
  rest-DirectsAll :
      (s : Outcome (List Wrap × Counters)) (t'' : Trace)
      → DirectsAll in_fd out_fd size (suc i) c' t' s t''
      → let run = then_run {B = List Wrap × Counters} (s, t'') (λ s. pure (w' ∷ s.0, s.1)) in
        DirectsAll in_fd out_fd size i c t run.0 run.1
  rest-DirectsAll (returns (ws', c'')) t'' (d, f, more, alone) = (
    d,
    (Follows-later size i w' c'.offset c''.offset t' t'' first.1 more (alone i (omega arith)), f),
    omega (arith, more, first.2),
    λ j lt. alone j (omega arith) ∙ first.3 j (λ e. omega (arith, e)),
  )
  rest-DirectsAll (exits n) t'' h = h
  rest-DirectsAll faults t'' h = h
  rest-DirectsAll spins t'' h = h
  rest-DirectsAll (execs _) t'' h = h

module _ (os : Os) (in_fd out_fd size : ℕ) where
  pub sweep-DirectsAll :
      (i : ℕ) (ws : List Wrap) (c : Counters) (t : Trace)
      → FollowsFrom size i ws c.offset t
      → IsDirected in_fd out_fd size t
      → let run = sweep os in_fd out_fd size i ws c t in
        DirectsAll in_fd out_fd size i c t run.0 run.1
  unfolding sweep
  sweep-DirectsAll i [] c t h so_far = (so_far, tt, omega arith, λ j lt. refl)
  sweep-DirectsAll i (w ∷ ws) c t h so_far =
      bind_post (Directs in_fd out_fd size i c t) (DirectsAll in_fd out_fd size i c t)
        (λ r. λ t'.
          then_run (sweep os in_fd out_fd size (suc i) ws r.1 t') (λ s. pure (r.0 ∷ s.0, s.1)))
        (λ r t' d.
          rest-DirectsAll in_fd out_fd size i c t r.0 r.1 t' d
            (sweep os in_fd out_fd size (suc i) ws r.1 t').0
            (sweep os in_fd out_fd size (suc i) ws r.1 t').1
            (sweep-DirectsAll (suc i) ws r.1 t'
              (FollowsFrom-later size (suc i) ws c.offset r.1.offset t t' h.1 d.2
                (λ j le. d.3 j (λ e. omega (arith, e))))
              d.0))
        (λ n t' d. d) (λ n t' d. d) (λ t' d. d) (λ t' d. d)
        (visit os in_fd out_fd size w.op i w c t)
        (visit-Directs in_fd out_fd size i c t os w h.0 so_far w.op refl)
