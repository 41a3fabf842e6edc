-- ===== src/Signals/State.antt =====
-- The signal state of a process, read off its calls: the disposition of each signal and the mask.
use myapue.Base.{ℕ, false, List, [], ◌∷◌, ◌==◌, ◌≡◌, if◌then◌else◌}
use myapue.Posix.{Call, Answer, Trace, Os, failed, out_of}

-- Dispositions: the default, ignoring, and from 2 on the handlers.
abbrev pub sig_dfl : ℕ
sig_dfl = 0

abbrev pub sig_ign : ℕ
sig_ign = 1

abbrev pub sigint : ℕ
sigint = 2

abbrev pub sigquit : ℕ
sigquit = 3

abbrev pub sigabrt : ℕ
sigabrt = 6

abbrev pub sigalrm : ℕ
sigalrm = 14

abbrev pub sigchld : ℕ
sigchld = 17

-- What a process starts with.
pub record Initial : Type 0 where
  pub actions : ℕ → ℕ
  pub mask : List ℕ

module _ (initial : Initial) where
  abbrev pub action : Trace → ℕ → ℕ
  action [] s = initial.actions s
  action ((Call.sigaction r h, Answer.ok _ _) ∷ t) s = if r == s then h else action t s
  action ((c, a) ∷ t) s = action t s

  -- The blocked signals. `sigprocmask m` is SIG_SETMASK, `block s` is SIG_BLOCK of one signal.
  abbrev pub mask : Trace → List ℕ
  mask [] = initial.mask
  mask ((Call.sigprocmask m, Answer.ok _ _) ∷ t) = m
  mask ((Call.block s, Answer.ok _ _) ∷ t) = s ∷ mask t
  mask ((c, a) ∷ t) = mask t

  -- What POSIX says of the last argument of sigaction and of sigprocmask: a call that succeeds
  -- stores there the disposition, or the mask, from before it.
  pub record ReportsOld (os : Os) : Type 0 where
    pub old_action :
        (t : Trace) (s h : ℕ)
        → failed (os t (Call.sigaction s h)) ≡ false
        → out_of (os t (Call.sigaction s h)) ≡ action t s ∷ []
    pub old_mask :
        (t : Trace) (s : ℕ)
        → failed (os t (Call.block s)) ≡ false
        → out_of (os t (Call.block s)) ≡ mask t
