-- ===== src/PollMsg/Relay.antt =====
-- What a thread passes on.
use myapue.Base.{subst, ℕ, zero, suc, ◌+◌, ◌≡◌, ◌<◌, ◌≤◌, ◌∷◌, take, refl, arith}
use myapue.Posix.{Os, Trace, Call, Answer, Outcome, returns, faults, spins, value, out_of}
use myapue.PollMsg.{maxline, until_zero, relay, thread_function}

-- The latest calls are pairs of a message received and its write, up to the first report.
abbrev pub Relays : ℕ → ℕ → Trace → Type 0
Relays queue fd ((Call.write f m, Answer.ok _ _) ∷ (Call.msgrcv q s, Answer.ok n out) ∷ t) =
    (f ≡ fd) × (q ≡ queue) × (m ≡ until_zero (take n out)) × (n < maxline) × Relays queue fd t
Relays queue fd ((Call.report _, _) ∷ t) = Unit {0}
Relays queue fd t = ⊥

-- How many messages were received since the first report.
abbrev pub messages : Trace → ℕ
messages ((Call.write f m, Answer.ok _ _) ∷ (Call.msgrcv q s, Answer.ok n out) ∷ t) =
    suc (messages t)
messages t = 0

-- How the thread ends, or is after a number of rounds.
abbrev pub Serves : ℕ → ℕ → ℕ → Outcome (Unit {0}) → Trace → Type 0
Serves rounds queue fd spins t = Relays queue fd t × (messages t ≡ rounds)
Serves rounds queue fd (returns _) ((Call.report _, _) ∷ (Call.msgrcv q s, Answer.fail _) ∷ t) =
    Relays queue fd t
Serves rounds queue fd (returns _)
      ((Call.report _, _)
        ∷ (Call.write f m, Answer.fail _)
        ∷ (Call.msgrcv q s, Answer.ok n out)
        ∷ t) =
    Relays queue fd t
Serves rounds queue fd faults ((Call.msgrcv q s, Answer.ok n out) ∷ t) =
    (maxline ≤ n) × Relays queue fd t
Serves rounds queue fd _ t = ⊥

module _ (os : Os) (queue fd : ℕ) where
  relay-Serves :
      (rounds before : ℕ) (t : Trace)
      → Relays queue fd t
      → messages t ≡ before
      → Serves
          (rounds + before)
          queue
          fd
          (relay os rounds queue fd t).0
          (relay os rounds queue fd t).1
  unfolding relay
  relay-Serves zero before t h e = (h, omega (arith, e))
  relay-Serves (suc rounds) before t h e =
      let asked : Call = Call.msgrcv queue maxline in
      let t₁ : Trace = (asked, os t asked) ∷ t in
      let sent : Call =
        Call.write fd (until_zero (take (value (os t asked)) (out_of (os t asked)))) in
      ground (arith, h, e, relay-Serves rounds (suc before) ((sent, os t₁ sent) ∷ t₁))

-- For any answers of the kernel: after any number of rounds, the thread has received as many
-- messages, each shorter than MAXLINE, and has written each, up to its first 0 and to its own
-- socket, right after it had received it; it returns only after a failure of msgrcv or write,
-- and it writes outside its buffer only for a message of MAXLINE bytes or more.
pub thread_function-Serves :
    (os : Os) (queue fd rounds : ℕ) (t : Trace)
    → Serves rounds queue fd
        (thread_function os rounds queue fd t).0
        (thread_function os rounds queue fd t).1
unfolding thread_function
thread_function-Serves os queue fd rounds t =
    let t₁ : Trace = (Call.report "id", os t (Call.report "id")) ∷ t in
    subst (λ n. Serves n queue fd (relay os rounds queue fd t₁).0 (relay os rounds queue fd t₁).1)
      (omega arith) (relay-Serves os queue fd rounds 0 t₁ tt refl)
