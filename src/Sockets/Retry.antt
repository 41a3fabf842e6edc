-- ===== src/Sockets/Retry.antt =====
-- connet_retry of 16.socket/02_connect_retry1.c.
use Prim.Native.String.{String}
use myapue.Base.{
  ℕ, zero, suc, ◌+◌, ◌*◌, ◌≤◌, ◌/◌, leb, if◌then◌else◌, Bool, true, false, ◌≡◌, arith, [], ◌∷◌,
}
use myapue.Posix.{Os, Prog, Trace, Status, nonneg, minus_one, pure, ◌>>=◌, ◌>>◌, call, failed}
use myapue.Posix.{Call, Outcome, returns, spins}
use myapue.Posix.Ledger.{failures}

abbrev pub maxsleep : ℕ
maxsleep = 128

module _ (os : Os) where
  -- The sleep of a round, which the last one leaves out.
  pub pause_for : Bool → ℕ → Prog (Unit {0})
  pause_for false seconds = pure tt
  pause_for true seconds = do call os (Call.sleep seconds); pure tt

  -- The loop, with fuel for its rounds; cur_sec doubles in each.
  pub retry_from : ℕ → ℕ → ℕ → String → Prog Status
  unfolding pause_for
  retry_from zero cur_sec sockfd addr t = (spins, t)
  retry_from (suc fuel) cur_sec sockfd addr t = elim (leb cur_sec maxsleep) [
    | false ↦ (returns minus_one, t)
    | true ↦
        (do
          c ← call os (Call.connect sockfd addr)
          if failed c
              then (do
                pause_for (leb cur_sec (maxsleep / 2)) cur_sec
                retry_from fuel (cur_sec * 2) sockfd addr)
              else pure (nonneg 0))
          t
  ]

  -- Eight rounds reach 256, and the ninth ends the loop.
  pub connet_retry : ℕ → String → Prog Status
  unfolding retry_from
  connet_retry sockfd addr = retry_from 9 1 sockfd addr

-- How often the trace tries to connect, and for how long it sleeps.
abbrev pub tries : Trace → ℕ
tries [] = 0
tries ((Call.connect _ _, a) ∷ t) = suc (tries t)
tries ((c, a) ∷ t) = tries t

abbrev pub slept : Trace → ℕ
slept [] = 0
slept ((Call.sleep s, a) ∷ t) = s + slept t
slept ((c, a) ∷ t) = slept t

-- How a call may end: connected, after no more tries than failures and one, or given up.
abbrev pub Connects : Trace → Outcome Status → Trace → Type 0
Connects t (returns (nonneg n)) t' =
    (n ≡ 0)
    × (tries t' + failures t ≡ suc (tries t + failures t'))
    × (tries t' ≤ tries t + 8)
    × (slept t' ≤ slept t + 127)
Connects t (returns minus_one) t' =
    (failures t' ≡ failures t + 8) × (tries t' ≡ tries t + 8) × (slept t' ≡ slept t + 127)
Connects t _ t' = ⊥

-- connet_retry always ends. It returns 0 right after the first connect that succeeds, having slept
-- at most 127 seconds; it returns -1 only after eight failed tries and 127 seconds of sleep.
pub connet_retry-Connects :
    (os : Os) (sockfd : ℕ) (addr : String) (t : Trace)
    → let run = connet_retry os sockfd addr t in Connects t run.0 run.1
unfolding connet_retry
connet_retry-Connects os sockfd addr t = ground arith
