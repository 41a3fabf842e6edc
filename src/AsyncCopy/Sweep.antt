-- ===== src/AsyncCopy/Sweep.antt =====
-- What the for loop does to the slots.
use myapue.Base.{ℕ, suc, ◌+◌, ◌%◌, ◌≡◌, ◌≢◌, ◌<◌, ◌≤◌, List, [], ◌∷◌, refl, arith, ◌∙◌}
use myapue.Posix.{
  Os, Trace, Outcome, returns, exits, faults, spins, execs, minus_one, nonneg, Status, then_run,
  bind_post, pure,
}
use myapue.AsyncCopy.{bsz, int_end, Wrap, Counters, visit, sweep}
use myapue.AsyncCopy.Ledger.{request}
use myapue.AsyncCopy.Moves.{used, total, Held, HeldFrom, Moves, Stops}
use myapue.AsyncCopy.Visit.{Visited, Leaves, visit-Visited, visit-Leaves}

-- Two steps, on a slot and on those behind it.
Moves-append :
    {off size : ℕ} {w w' : Wrap} {ws ws' : List Wrap} {c c' c'' : Counters} {t t' t'' : Trace}
    → Moves off size (w ∷ []) c t (w' ∷ []) c' t'
    → Moves off size ws c' t' ws' c'' t''
    → Moves off size (w ∷ ws) c t (w' ∷ ws') c'' t''
Moves-append m n = record {
  starts = omega (arith, m.starts, n.starts);
  passes_on = omega (arith, m.passes_on, n.passes_on);
  ends = omega (arith, m.ends, n.ends);
  counted = omega (arith, m.counted, n.counted);
  aligned = n.aligned;
  near = n.near;
}

Moves-Stops :
    {off size : ℕ} {w w' : Wrap} {ws : List Wrap} {c c' : Counters} {t t' t'' : Trace}
    → Moves off size (w ∷ []) c t (w' ∷ []) c' t'
    → Stops off size ws c' t' t''
    → Stops off size (w ∷ ws) c t t''
Moves-Stops m n = record {
  starts = omega (arith, m.starts, n.starts);
  passes_on = omega (arith, m.passes_on, n.passes_on);
}

Stops-more :
    {off size : ℕ} {w : Wrap} (ws : List Wrap) {c : Counters} {t t' : Trace}
    → Stops off size (w ∷ []) c t t'
    → Stops off size (w ∷ ws) c t t'
Stops-more ws m = record { starts = m.starts; passes_on = omega (arith, m.passes_on) }

pub HeldFrom-frame :
    (i : ℕ) (ws : List Wrap) (t t' : Trace)
    → HeldFrom i ws t
    → ((j : ℕ) → i ≤ j → request j t' ≡ request j t)
    → HeldFrom i ws t'
HeldFrom-frame i [] t t' h same = tt
HeldFrom-frame i (w ∷ ws) t t' h same = (
  rw (same i (omega arith)) h.0,
  HeldFrom-frame (suc i) ws t t' h.1 (λ j le. same j (omega arith)),
)

module _ (off size i : ℕ) (ws : List Wrap) (c : Counters) (t : Trace) where
  abbrev pub Swept : Outcome (List Wrap × Counters) → Trace → Type 0
  Swept (returns (ws', c')) t' =
      Moves off size ws c t ws' c' t'
      × HeldFrom i ws' t'
      × ((j : ℕ) → j < i → request j t' ≡ request j t)
  Swept (exits minus_one) t' = Stops off size ws c t t'
  Swept faults t' = int_end < size + bsz
  Swept _ t' = ⊥

-- The slots behind the first, after it has been visited.
module _ (off size i : ℕ) (w : Wrap) (ws : List Wrap) (c : Counters) (t : Trace) (w' : Wrap)
    (c' : Counters) (t' : Trace) (moved : Moves off size (w ∷ []) c t (w' ∷ []) c' t')
    (held : Held i w' t') (alone : (j : ℕ) → i ≢ j → request j t' ≡ request j t) where
  rest-Swept :
      (s : Outcome (List Wrap × Counters)) (t'' : Trace)
      → Swept off size (suc i) ws c' t' s t''
      → Swept off size i
          (w ∷ ws)
          c
          t
          (then_run {B = List Wrap × Counters} (s, t'') (λ s. pure (w' ∷ s.0, s.1))).0
          (then_run {B = List Wrap × Counters} (s, t'') (λ s. pure (w' ∷ s.0, s.1))).1
  rest-Swept (returns (ws', c'')) t'' h = (
    Moves-append moved h.0,
    (rw (h.2 i (omega arith)) held, h.1),
    λ j lt. h.2 j (omega arith) ∙ alone j (λ e. omega (arith, e)),
  )
  rest-Swept (exits minus_one) t'' h = Moves-Stops moved h
  rest-Swept (exits (nonneg n)) t'' h = h
  rest-Swept faults t'' h = h
  rest-Swept spins t'' h = h
  rest-Swept (execs _) t'' h = h

exit_Swept :
    (off size i : ℕ) (w : Wrap) (ws : List Wrap) (c : Counters) (t : Trace) (n : Status)
    (t' : Trace)
    → Visited off size i w c t (exits n) t'
    → Swept off size i (w ∷ ws) c t (exits n) t'
exit_Swept off size i w ws c t minus_one t' h = Stops-more ws h
exit_Swept off size i w ws c t (nonneg n) t' h = h

module _ (os : Os) (in_fd out_fd off size : ℕ) where
  -- From a state whose books are in order.
  pub sweep-Swept :
      (i : ℕ) (ws : List Wrap) (c : Counters) (t : Trace)
      → c.offset % bsz ≡ 0
      → c.offset < size + bsz
      → total used ws ≤ c.num_to_process
      → HeldFrom i ws t
      → Swept off size i ws c t
          (sweep os in_fd out_fd size i ws c t).0
          (sweep os in_fd out_fd size i ws c t).1
  unfolding sweep
  sweep-Swept i [] c t aligned near enough held = (
    record {
      starts = refl;
      passes_on = refl;
      ends = refl;
      counted = refl;
      aligned = aligned;
      near = near;
    },
    tt,
    λ j lt. refl,
  )
  sweep-Swept i (w ∷ ws) c t aligned near enough held =
      let exit_more : (n : Status) (t' : Trace)
          → Visited off size i w c t (exits n) t'
          → Swept off size i (w ∷ ws) c t (exits n) t' =
        exit_Swept off size i w ws c t in
      bind_post (λ o t'. Visited off size i w c t o t' × ((j : ℕ) → Leaves i j t o t'))
        (Swept off size i (w ∷ ws) c t)
        (λ r. λ t'.
          then_run (sweep os in_fd out_fd size (suc i) ws r.1 t') (λ s. pure (r.0 ∷ s.0, s.1)))
        (λ r t' h.
          rest-Swept off size i w ws c t r.0 r.1 t' h.0.0 h.0.1 h.1
            (sweep os in_fd out_fd size (suc i) ws r.1 t').0
            (sweep os in_fd out_fd size (suc i) ws r.1 t').1
            (sweep-Swept (suc i) ws r.1 t' h.0.0.aligned h.0.0.near
              (omega (arith, h.0.0.counted, enough))
              (HeldFrom-frame (suc i) ws t t' held.1 (λ j le. h.1 j (λ e. omega (arith, e))))))
        (λ n t' h. exit_more n t' h.0) (λ n t' h. h.0) (λ t' h. h.0) (λ t' h. h.0)
        (visit os in_fd out_fd size w.op i w c t)
        (
          visit-Visited off size i w c t os in_fd out_fd aligned near (omega (arith, enough)) held.0
              w.op refl,
          λ j. visit-Leaves i j t os in_fd out_fd size w c w.op,
        )
