-- ===== src/TellWait/Order.antt =====
-- The order of the two processes, and that they end.
use myapue.Base.{
  ℕ, zero, suc, ◌+◌, ◌≤◌, ◌<◌, ◌≡◌, ◌⊎◌, inl, inr, refl, arith, Bool, true, false, Bool-cases, ◌||◌,
  List, [], ◌∷◌,
}
use myapue.TellWait.{
  Parent, forking, closing, reading, telling, waiting, ended, Child, unborn, starting, sleeping,
  finishing, closing_read, writing, leaving, gone, is_alive, Line, parent_run, child_end, System,
  ParentStep, fork, fork_fails, close_write, read_byte, read_end, tell_run, wait_child, ChildStep,
  tell_start, awake, tell_end, close_read, write, leave, Step, by_parent, by_child, kill, init,
  Reach, here, later,
}

abbrev pub has_ended : List Line → Bool
has_ended [] = false
has_ended (child_end ∷ lines) = true
has_ended (l ∷ lines) = has_ended lines

-- The parent's line stands behind the child's last one.
abbrev pub Follows : List Line → Type 0
Follows [] = Unit
Follows (parent_run ∷ lines) = (has_ended lines ≡ true) × Follows lines
Follows (l ∷ lines) = Follows lines

-- But for a child that was killed.
abbrev pub FollowsUnless : Bool → List Line → Type 0
FollowsUnless true lines = Unit
FollowsUnless false lines = Follows lines

-- The parent has left read.
abbrev pub has_read : Parent → Bool
has_read telling = true
has_read waiting = true
has_read _ = false

-- The ends of the pipe that the parent holds.
abbrev pub ParentHolds : Parent → Bool → Type 0
ParentHolds forking b = b ≡ true
ParentHolds closing b = b ≡ true
ParentHolds ended b = Unit
ParentHolds _ b = b ≡ false

-- Whether the child is born, for each place of the parent.
abbrev pub Belongs : Parent → Child → Type 0
Belongs forking c = c ≡ unborn
Belongs ended c = is_alive c ≡ false
Belongs p unborn = ⊥
Belongs p c = Unit

-- What the child has done at each of its places.
abbrev pub Done : Child → System → Type 0
Done unborn s = (s.bytes ≡ 0) × (s.child_writes ≡ false) × (s.killed ≡ false)
Done starting s = (s.bytes ≡ 0) × (s.child_writes ≡ true) × (has_read s.parent ≡ false)
Done sleeping s = (s.bytes ≡ 0) × (s.child_writes ≡ true) × (has_read s.parent ≡ false)
Done finishing s = (s.bytes ≡ 0) × (s.child_writes ≡ true) × (has_read s.parent ≡ false)
Done closing_read s =
    (s.bytes ≡ 0)
    × (s.child_writes ≡ true)
    × (has_read s.parent ≡ false)
    × (has_ended s.lines ≡ true)
Done writing s =
    (s.bytes ≡ 0)
    × (s.child_writes ≡ true)
    × (has_read s.parent ≡ false)
    × (has_ended s.lines ≡ true)
Done leaving s = has_ended s.lines ≡ true
Done gone s = (s.child_writes ≡ false) × (s.killed || has_ended s.lines ≡ true)

pub record IsInOrder (s : System) : Type 0 where
  pub holds : ParentHolds s.parent s.parent_writes
  pub belongs : Belongs s.parent s.child
  pub done : Done s.child s
  pub follows : FollowsUnless s.killed s.lines

ParentStep-IsInOrder :
    {s t : System} {p : Parent} → IsInOrder s → s.parent ≡ p → ParentStep s p t → IsInOrder t
ParentStep-IsInOrder v e fork = ground (arith, e)
ParentStep-IsInOrder v e fork_fails = ground (arith, e)
ParentStep-IsInOrder v e close_write = ground (arith, e)
ParentStep-IsInOrder v e (read_byte n full) = ground (arith, e)
ParentStep-IsInOrder v e (read_end empty mine child) = ground (arith, e)
ParentStep-IsInOrder v e tell_run = ground (arith, e)
ParentStep-IsInOrder v e (wait_child dead) = ground (arith, e)

ChildStep-IsInOrder :
    {s t : System} {c : Child} → IsInOrder s → s.child ≡ c → ChildStep s c t → IsInOrder t
ChildStep-IsInOrder v e tell_start = ground (arith, e)
ChildStep-IsInOrder v e awake = ground (arith, e)
ChildStep-IsInOrder v e tell_end = ground (arith, e)
ChildStep-IsInOrder v e close_read = ground (arith, e)
ChildStep-IsInOrder v e write = ground (arith, e)
ChildStep-IsInOrder v e leave = ground (arith, e)

Step-IsInOrder : {s t : System} → IsInOrder s → Step s t → IsInOrder t
Step-IsInOrder v (by_parent e a) = ParentStep-IsInOrder v e a
Step-IsInOrder v (by_child e a) = ChildStep-IsInOrder v e a
Step-IsInOrder v (kill alive) = ground arith

start-IsInOrder : IsInOrder init
start-IsInOrder = record { holds = refl; belongs = refl; done = (refl, refl, refl); follows = tt }

invariant_kept : {n : ℕ} {s : System} → Reach n s → IsInOrder s
invariant_kept here = start-IsInOrder
invariant_kept (later r step) = Step-IsInOrder (invariant_kept r) step

-- At most how many steps are left.
abbrev parent_left : Parent → ℕ
parent_left forking = 11
parent_left closing = 4
parent_left reading = 3
parent_left telling = 2
parent_left waiting = 1
parent_left ended = 0

abbrev child_left : Child → ℕ
child_left unborn = 0
child_left starting = 6
child_left sleeping = 5
child_left finishing = 4
child_left closing_read = 3
child_left writing = 2
child_left leaving = 1
child_left gone = 0

left : System → ℕ
left s = parent_left s.parent + child_left s.child

left-parent :
    {s t : System} {p : Parent} → IsInOrder s → s.parent ≡ p → ParentStep s p t → left t < left s
unfolding left
left-parent v e fork = ground (arith, e, v.belongs)
left-parent v e fork_fails = ground (arith, e)
left-parent v e close_write = ground (arith, e)
left-parent v e (read_byte n full) = ground (arith, e)
left-parent v e (read_end empty mine child) = ground (arith, e)
left-parent v e tell_run = ground (arith, e)
left-parent v e (wait_child dead) = ground (arith, e)

left-child : {s t : System} {c : Child} → s.child ≡ c → ChildStep s c t → left t < left s
unfolding left
left-child e tell_start = ground (arith, e)
left-child e awake = ground (arith, e)
left-child e tell_end = ground (arith, e)
left-child e close_read = ground (arith, e)
left-child e write = ground (arith, e)
left-child e leave = ground (arith, e)

left-step : {s t : System} → IsInOrder s → Step s t → left t < left s
unfolding left
left-step v (by_parent e a) = left-parent v e a
left-step v (by_child e a) = left-child e a
left-step v (kill alive) = ground arith

Reach-left : {n : ℕ} {s : System} → Reach n s → n + left s ≤ 11
unfolding left
Reach-left here = omega arith
Reach-left (later r step) = omega (arith, Reach-left r, left-step (invariant_kept r) step)

-- Both have ended, or a step is possible.
abbrev pub GoesOn : System → Type 0
GoesOn s = ((s.parent ≡ ended) × (is_alive s.child ≡ false)) ⊎ ((t : System) × Step s t)

-- The child can always go on, and does not wait for the parent.
child-GoesOn : (s : System) (c : Child) → s.child ≡ c → is_alive c ≡ true → GoesOn s
child-GoesOn s starting e alive = inr (_, by_child e tell_start)
child-GoesOn s sleeping e alive = inr (_, by_child e awake)
child-GoesOn s finishing e alive = inr (_, by_child e tell_end)
child-GoesOn s closing_read e alive = inr (_, by_child e close_read)
child-GoesOn s writing e alive = inr (_, by_child e write)
child-GoesOn s leaving e alive = inr (_, by_child e leave)
child-GoesOn s unborn e alive = cc
child-GoesOn s gone e alive = cc

parent-GoesOn :
    (s : System) (p : Parent) (n : ℕ)
    → IsInOrder s
    → s.parent ≡ p
    → s.bytes ≡ n
    → is_alive s.child ≡ false
    → GoesOn s
parent-GoesOn s forking n v e b dead = inr (_, by_parent e fork)
parent-GoesOn s closing n v e b dead = inr (_, by_parent e close_write)
parent-GoesOn s reading zero v e b dead =
    inr (_, by_parent e (read_end b (ground (arith, e, v.holds)) (ground (arith, e, dead, v.done))))
parent-GoesOn s reading (suc n) v e b dead = inr (_, by_parent e (read_byte n b))
parent-GoesOn s telling n v e b dead = inr (_, by_parent e tell_run)
parent-GoesOn s waiting n v e b dead =
    inr (_, by_parent e (wait_child (ground (arith, e, dead, v.belongs))))
parent-GoesOn s ended n v e b dead = inl (e, dead)

order-GoesOn : (s : System) → IsInOrder s → GoesOn s
order-GoesOn s v = elim (Bool-cases (is_alive s.child)) [
  | inl alive ↦ child-GoesOn s s.child refl alive
  | inr dead ↦ parent-GoesOn s s.parent s.bytes v refl refl dead
]

-- In every state that the two reach in n steps, in any order, also where a signal kills the child: the
-- parent has printed its line only behind the child's last one, unless the child was killed
-- before; both have ended or one of them can go on; and n is at most 11, so that every run
-- ends both, and the parent never waits for a byte that does not come.
pub Reach-FollowsUnless :
    {n : ℕ} {s : System} → Reach n s → FollowsUnless s.killed s.lines × GoesOn s × (n ≤ 11)
Reach-FollowsUnless {n} {s} r =
    let v = invariant_kept r in (v.follows, order-GoesOn s v, omega (arith, Reach-left r))
