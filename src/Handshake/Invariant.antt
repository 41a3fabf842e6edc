-- ===== src/Handshake/Invariant.antt =====
-- What the actions of the two processes keep.
use myapue.Base.{ℕ, ◌+◌, ◌==◌, ◌<◌, ◌≤◌, ◌≡◌, Bool, true, false, List, [], ◌∷◌, some, refl, arith}
use myapue.Handshake.{
  Action, lock_a_byte, tell, wait, wait_masked, suspend, unmask, sleep, Process, System, act, Step,
  by_parent, by_child, Reach, here, later, init,
}
use myapue.Handshake.Counts.{tells, waits, suspends, suspends_masked, tells_first, left}

-- One process, seen with its partner: while it has still to wait and has not been signalled, the
-- partner has still to tell; once it has been signalled or has left its wait, the partner has told.
-- `first` says that its program tells before it waits, `must` that it waits, and `total` is how
-- often the partner's program tells.
pub record Side (first must : Bool) (total : ℕ) (p partner : Process) : Type 0 where
  pub asks : 0 < waits p.rest → p.flag ≡ false → p.pending ≡ false → 0 < tells partner.rest
  pub few : waits p.rest ≤ 1
  pub ended : p.running ≡ false → p.rest ≡ []
  pub ordered : first ≡ true → tells_first p.rest ≡ true
  pub flagged : p.flag ≡ true → tells partner.rest < total
  pub noted : p.pending ≡ true → tells partner.rest < total
  pub passed : must ≡ true → waits p.rest ≡ 0 → tells partner.rest < total
  pub bounded : tells partner.rest ≤ total
  pub calm : 0 < suspends p.rest → (p.flag ≡ false) × (p.blocked ≡ true)
  pub masked : suspends_masked p.rest ≡ true

-- For the lists of actions of the two processes.
pub record IsPaired (parent child : List Action) : Type 0 where
  pub parent_few : waits parent ≤ 1
  pub child_few : waits child ≤ 1
  pub parent_asks : 0 < waits parent → 0 < tells child
  pub child_asks : 0 < waits child → 0 < tells parent
  pub parent_masked : suspends_masked parent ≡ true
  pub child_masked : suspends_masked child ≡ true

pub record Inv (parent child : List Action) (s : System) : Type 0 where
  pub of_parent : Side (tells_first parent) (waits parent == 1) (tells child) s.parent s.child
  pub of_child : Side (tells_first child) (waits child == 1) (tells parent) s.child s.parent

-- More than the steps that are left.
abbrev pub steps_left : System → ℕ
steps_left s = left s.parent + left s.child

suspends-le-waits : (rest : List Action) → suspends rest ≤ waits rest
suspends-le-waits [] = omega arith
suspends-le-waits (a ∷ rest) = ground (arith, suspends-le-waits rest)

module _ (f g m k : Bool) (a b : ℕ) (p c p' c' : Process) (v : Side f m a p c)
    (w : Side g k b c p) where
  abbrev pub Kept : Type 0
  Kept = Side f m a p' c' × Side g k b c' p' × (left p' + left c' < left p + left c)

  pub act-Kept : (rest : List Action) → p.rest ≡ rest → act rest p c ≡ some (p', c') → Kept
  unfolding act
  act-Kept [] e h = ground arith
  act-Kept (lock_a_byte offset ∷ rest) e h = ground (arith, suspends-le-waits rest)
  act-Kept (tell ∷ rest) e h = ground (arith, suspends-le-waits rest)
  act-Kept (wait false ∷ rest) e h = ground (arith, suspends-le-waits rest)
  act-Kept (wait true ∷ rest) e h = ground (arith, suspends-le-waits rest)
  act-Kept (wait_masked ∷ rest) e h = ground (arith, suspends-le-waits rest)
  act-Kept (suspend ∷ rest) e h = ground (arith, suspends-le-waits rest)
  act-Kept (unmask ∷ rest) e h = ground (arith, suspends-le-waits rest)
  act-Kept (sleep ∷ rest) e h = ground (arith, suspends-le-waits rest)

module _ {parent child : List Action} where
  start-Inv : IsPaired parent child → Inv parent child (init parent child)
  start-Inv h = record {
    of_parent = record {
      asks = λ w f n. h.parent_asks w;
      few = h.parent_few;
      ended = λ e. cc;
      ordered = λ e. e;
      flagged = λ e. cc;
      noted = λ e. cc;
      passed = λ m z. ground arith;
      bounded = omega arith;
      calm = λ z. (refl, refl);
      masked = h.parent_masked;
    };
    of_child = record {
      asks = λ w f n. h.child_asks w;
      few = h.child_few;
      ended = λ e. cc;
      ordered = λ e. e;
      flagged = λ e. cc;
      noted = λ e. cc;
      passed = λ m z. ground arith;
      bounded = omega arith;
      calm = λ z. (refl, refl);
      masked = h.child_masked;
    };
  }

  Step-Inv :
      {s t : System}
      → Inv parent child s
      → Step s t
      → Inv parent child t × (steps_left t < steps_left s)
  Step-Inv {s} v (by_parent {p} {c} h) =
      let (a, b, l) =
        act-Kept _ _ _ _ _ _ s.parent s.child p c v.of_parent v.of_child s.parent.rest refl h in
      (record { of_parent = a; of_child = b }, l)
  Step-Inv {s} v (by_child {p} {c} h) =
      let (b, a, l) =
        act-Kept _ _ _ _ _ _ s.child s.parent c p v.of_child v.of_parent s.child.rest refl h in
      (record { of_parent = a; of_child = b }, omega (arith, l))

  pub Reach-Inv_steps :
      {n : ℕ} {s : System}
      → IsPaired parent child
      → Reach parent child n s
      → Inv parent child s × (n + steps_left s ≤ steps_left (init parent child))
  Reach-Inv_steps h here = (start-Inv h, omega arith)
  Reach-Inv_steps h (later r step) =
      let (v, le) = Reach-Inv_steps h r in
      let (v', lt) = Step-Inv v step in (v', omega (arith, le, lt))
