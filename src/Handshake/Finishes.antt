-- ===== src/Handshake/Finishes.antt =====
-- The two processes always finish, and a wait ends only when the partner has told.
use myapue.Base.{
  ℕ, ◌+◌, ◌*◌, ◌<◌, ◌≤◌, ◌≡◌, ◌⊎◌, inl, inr, Option-cases, true, false, List, [], ◌∷◌, length, none,
  arith,
}
use myapue.Handshake.{
  Action, lock_a_byte, tell, wait, wait_masked, suspend, unmask, sleep, Process, System, act, Step,
  by_parent, by_child, Reach,
}
use myapue.Handshake.Counts.{tells, waits, suspends, tells_first}
use myapue.Handshake.Invariant.{Inv, IsPaired, Reach-Inv_steps}

-- Why a process may have no action.
abbrev Stuck : List Action → Process → Type 0
Stuck rest p =
    (p.running ≡ false)
    ⊎ ((0 < waits rest)
        × ((p.flag ≡ false) ⊎ (0 < suspends rest))
        × (p.pending ≡ false)
        × (tells_first rest ≡ true → tells rest ≡ 0))

act-Stuck : (rest : List Action) (p c : Process) → act rest p c ≡ none → Stuck rest p
unfolding act
act-Stuck [] p c h = inl (ground arith)
act-Stuck (lock_a_byte offset ∷ rest) p c h = absurd (ground arith)
act-Stuck (tell ∷ rest) p c h = absurd (ground arith)
act-Stuck (wait false ∷ rest) p c h = inr (ground arith)
act-Stuck (wait true ∷ rest) p c h = inr (ground arith)
act-Stuck (wait_masked ∷ rest) p c h = inr (ground arith)
act-Stuck (suspend ∷ rest) p c h = inr (ground arith)
act-Stuck (unmask ∷ rest) p c h = absurd (ground arith)
act-Stuck (sleep ∷ rest) p c h = absurd (ground arith)

abbrev pub HaveEnded : System → Type 0
HaveEnded s = (s.parent.running ≡ false) × (s.child.running ≡ false)

-- The processes have ended, or one of them has a step.
abbrev pub GoesOn : System → Type 0
GoesOn s = HaveEnded s ⊎ ((t : System) × Step s t)

abbrev pub Finishes : List Action → List Action → ℕ → System → Type 0
Finishes parent child n s = GoesOn s × (n ≤ 3 * (length parent + length child) + 4)

-- A process that waits in its program and has no wait left has been told by its partner.
abbrev pub IsTold : List Action → List Action → System → Type 0
IsTold parent child s =
    (waits parent ≡ 1 → waits s.parent.rest ≡ 0 → tells s.child.rest < tells child)
    × (waits child ≡ 1 → waits s.child.rest ≡ 0 → tells s.parent.rest < tells parent)

module _ {parent child : List Action} (s : System) (v : Inv parent child s)
    (ordered : (tells_first parent ≡ true) ⊎ (tells_first child ≡ true)) where
  -- At most one of the processes is stuck in its wait.
  both_halted : Stuck s.parent.rest s.parent → Stuck s.child.rest s.child → HaveEnded s
  both_halted (inl a) (inl b) = (a, b)
  both_halted (inl a) (inr b) =
      absurd (ground (arith, v.of_parent.ended a, b, v.of_child.asks, v.of_child.calm))
  both_halted (inr a) (inl b) =
      absurd (ground (arith, v.of_child.ended b, a, v.of_parent.asks, v.of_parent.calm))
  both_halted (inr a) (inr b) = absurd (
      ground (
        arith, a, b, v.of_parent.asks, v.of_child.asks, v.of_parent.ordered, v.of_child.ordered,
        v.of_parent.calm, v.of_child.calm, ordered,
      ))

  Inv-GoesOn : GoesOn s
  Inv-GoesOn = elim (Option-cases (act s.parent.rest s.parent s.child)) [
    | inr q ↦ inr (_, by_parent q.1)
    | inl halted ↦ elim (Option-cases (act s.child.rest s.child s.parent)) [
      | inr q ↦ inr (_, by_child q.1)
      | inl halted_too ↦ inl (
          both_halted (act-Stuck s.parent.rest s.parent s.child halted)
            (act-Stuck s.child.rest s.child s.parent halted_too))
    ]
  ]

-- For two programs of which each waits at most once and, where it waits, the other tells, of which
-- neither has a sigsuspend outside a loop after it has unblocked the signal, and of which one tells
-- before it waits: in every state that they reach in n steps, in any order, the two
-- processes have ended or one of them can go on, and n is at most three for each action and four
-- more, so that every run ends both.
pub Reach-Finishes :
    {parent child : List Action} {n : ℕ} {s : System}
    → IsPaired parent child
    → (tells_first parent ≡ true) ⊎ (tells_first child ≡ true)
    → Reach parent child n s
    → Finishes parent child n s
Reach-Finishes {n = n} {s} h ordered r =
    let (v, le) = Reach-Inv_steps h r in (Inv-GoesOn s v ordered, omega (arith, le))

-- For two programs of which each waits at most once and, where it waits, the other tells, and of
-- which neither has a sigsuspend outside a loop after it has unblocked the signal: in every state
-- that they reach, a process that waits in its program and has no wait left has been told by its
-- partner.
pub Reach-IsTold :
    {parent child : List Action} {n : ℕ} {s : System}
    → IsPaired parent child
    → Reach parent child n s
    → IsTold parent child s
Reach-IsTold h r =
    let (v, le) = Reach-Inv_steps h r in
    ((λ m z. v.of_parent.passed (ground arith) z), (λ m z. v.of_child.passed (ground arith) z))
