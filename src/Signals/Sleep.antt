-- ===== src/Signals/Sleep.antt =====
-- sleep of 10.signals/17_sleep.c.
use myapue.Base.{ℕ, ◌==◌, ◌<◌, if◌then◌else◌, ◌≡◌, List, [], ◌∷◌, get_or}
use myapue.Posix.{Os, Prog, Trace, Status, nonneg, minus_one, pure, ◌>>=◌, ◌>>◌, call, failed}
use myapue.Posix.{value, out_of, Call, Outcome, returns}
use myapue.Posix.Ledger.{failures}
use myapue.Signals.State.{sigalrm, Initial, action, mask}

-- The handler, which does nothing.
abbrev pub sig_alarm : ℕ
sig_alarm = 2

abbrev pub sigdelset : ℕ → List ℕ → List ℕ
sigdelset signo [] = []
sigdelset signo (s ∷ set) = let rest = sigdelset signo set in if s == signo then rest else s ∷ rest

module _ (os : Os) where
  -- After both calls that may fail before the alarm is set.
  pub suspend : ℕ → ℕ → List ℕ → Prog Status
  suspend seconds old_action saved_block_alarm = do
    call os (Call.alarm seconds)
    call os (Call.sigsuspend (sigdelset sigalrm saved_block_alarm))
    unsleeped ← call os (Call.alarm 0)
    r ← call os (Call.sigaction sigalrm old_action)
    if failed r then pure minus_one else pure (nonneg (value unsleeped))

  pub sleep : ℕ → Prog Status
  unfolding suspend
  sleep seconds = do
    a ← call os (Call.sigaction sigalrm sig_alarm)
    if failed a then pure minus_one else do
      m ← call os (Call.block sigalrm)
      if failed m then pure minus_one else suspend seconds (get_or (out_of a) 0 0) (out_of m)

-- How a call may end.
abbrev pub Sleeps : Initial → ℕ → Trace → Outcome Status → Trace → Type 0
Sleeps initial seconds t (returns (nonneg n))
      (restored ∷ (Call.alarm off, left) ∷ (Call.sigsuspend m, w) ∷ (Call.alarm on, b) ∷ t') =
    (n ≡ value left)
    × (off ≡ 0)
    × (on ≡ seconds)
    × (m ≡ sigdelset sigalrm (mask initial t))
    × (action initial
          (restored ∷ (Call.alarm off, left) ∷ (Call.sigsuspend m, w) ∷ (Call.alarm on, b) ∷ t')
          sigalrm
        ≡ action initial t sigalrm)
    × (mask initial t' ≡ sigalrm ∷ mask initial t)
Sleeps initial seconds t (returns minus_one) t' = failures t < failures t'
Sleeps initial seconds t _ t' = ⊥
