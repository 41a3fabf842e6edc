-- ===== src/PollMsg/Scan.antt =====
-- What a pass over the events reads.
use myapue.Base.{
  ◌⊎◌, ℕ, zero, suc, ◌+◌, ◌-◌, ◌==◌, ◌≡◌, ◌<◌, ◌≤◌, if◌then◌else◌, inl, List, [], ◌∷◌, get_or, refl,
  arith,
}
use myapue.Posix.{Os, Trace, Call, Answer, Outcome, returns, faults, value}
use myapue.PollMsg.{maxline, number_threads, scan, EpollEvent, no_event}

-- How many reads a trace has, and how many of a descriptor.
abbrev pub reads : Trace → ℕ
reads [] = 0
reads ((Call.read _ _, _) ∷ t) = suc (reads t)
reads (_ ∷ t) = reads t

abbrev pub reads_of : ℕ → Trace → ℕ
reads_of fd [] = 0
reads_of fd ((Call.read f _, _) ∷ t) = if f == fd then suc (reads_of fd t) else reads_of fd t
reads_of fd (_ ∷ t) = reads_of fd t

-- How many rounds the second loop of main has begun.
abbrev pub waits : Trace → ℕ
waits [] = 0
waits ((Call.epoll_wait _ _, _) ∷ t) = suc (waits t)
waits (_ ∷ t) = waits t

-- The latest read answered more than there are events.
abbrev pub HasLongRead : Trace → Type 0
HasLongRead ((Call.report _, _) ∷ (Call.read _ _, Answer.ok k _) ∷ t) = number_threads < k
HasLongRead ((Call.read _ _, Answer.ok k _) ∷ t) = number_threads < k
HasLongRead t = ⊥

-- The pass began at `t`, with `left` slots to go.
abbrev pub Scans : ℕ → ℕ → Trace → Outcome (Unit {0}) → Trace → Type 0
Scans left fd t (returns _) t' =
    (reads t' ≤ reads t + left)
    × (reads t' + reads_of fd t ≡ reads t + reads_of fd t')
    × (waits t' ≡ waits t)
Scans left fd t faults t' = HasLongRead t' × (reads t' + reads_of fd t ≡ reads t + reads_of fd t')
Scans left fd t _ t' = ⊥

module _ (os : Os) (events : List EpollEvent) where
  abbrev pub first_fd : ℕ
  first_fd = (get_or events 0 no_event).0

  scan-Scans_from :
      (fuel i n : ℕ) (t : Trace)
      → fuel + i ≡ 4
      → i < 4
      → (n ≤ number_threads) ⊎ HasLongRead t
      → Scans (3 - i) first_fd t (scan os fuel i n events t).0 (scan os fuel i n events t).1
  unfolding scan
  scan-Scans_from zero i n t e lt bound = absurd (omega arith)
  scan-Scans_from (suc fuel) i n t e lt bound =
      let asked : Call = Call.read first_fd maxline in
      let t₁ : Trace = (asked, os t asked) ∷ t in
      let t₂ : Trace = (Call.report "message read", os t₁ (Call.report "message read")) ∷ t₁ in
      ground (
        arith,
        e,
        bound,
        scan-Scans_from fuel (suc i) n t,
        scan-Scans_from fuel (suc i) (value (os t asked)) t₂,
      )

  pub scan-Scans :
      (n : ℕ) (t : Trace)
      → n ≤ number_threads
      → Scans 3 first_fd t (scan os 4 0 n events t).0 (scan os 4 0 n events t).1
  scan-Scans n t h = scan-Scans_from 4 0 n t refl (omega arith) (inl h)
