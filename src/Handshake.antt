-- ===== src/Handshake.antt =====
-- 10.signals/14_tell_wait.c, 14.advio/02_deadlock.c and 14.advio/04_mandatory.c: a parent and a
-- child that tell one another with SIGUSR1 how far they are, interleaved in any order.
pub mod Counts
pub mod Invariant
pub mod Finishes
mod Examples
use myapue.Base.{
  ℕ, zero, suc, ◌+◌, ◌==◌, if◌then◌else◌, Bool, true, false, ◌≡◌, List, [], ◌∷◌, Option, none, some,
}
use myapue.Threads.Runs.{write}

-- What a process does after fork, one action to a call. `wait` is the loop on sigsuspend with the
-- sigprocmask after it; its flag says whether the loop is followed by a reset of signal_flag.
-- `wait_masked` is the loop and the reset without the sigprocmask, `suspend` one sigsuspend with no
-- loop, `unmask` the sigprocmask, and `sleep` also stands for a read. A lock of the whole file is
-- one of the byte 0.
pub data Action : Type 0 where
  lock_a_byte : (offset : ℕ) → Action
  tell : Action
  wait : (reset : Bool) → Action
  wait_masked : Action
  suspend : Action
  unmask : Action
  sleep : Action

-- A process: the actions still to come, the flag of its handler, whether SIGUSR1 is pending and
-- whether it is blocked, which bytes it holds, and which it was refused.
pub record Process : Type 0 where
  pub rest : List Action
  pub flag : Bool
  pub pending : Bool
  pub blocked : Bool
  pub running : Bool
  pub holds : ℕ → Bool
  pub refused : List ℕ

-- kill(pid, SIGUSR1), for the process that it is sent to.
abbrev pub signalled : Process → Process
signalled p = if p.blocked then record p { pending = true } else record p { flag = true }

-- The loop on sigsuspend, which delivers a pending signal; nothing happens without one.
abbrev pub suspended : Process → Option Process
suspended p = if p.pending then some (record p { flag = true; pending = false }) else none

-- wait of 14.advio/02_deadlock.c: the mask of before delivers what is pending.
abbrev pub wait_next : List Action → Process → Option Process
wait_next rest p =
    if p.flag
    then some (record p { rest = rest; pending = false; blocked = false })
    else suspended p

-- wait_parent and wait_child of 10.signals/14_tell_wait.c, which also reset the flag.
abbrev pub wait_reset_next : List Action → Process → Option Process
wait_reset_next rest p =
    if p.flag
    then some (record p { rest = rest; flag = p.pending; pending = false; blocked = false })
    else suspended p

-- wait_child of 14.advio/04_mandatory.c
abbrev pub wait_masked_next : List Action → Process → Option Process
wait_masked_next rest p =
    if p.flag then some (record p { rest = rest; flag = false }) else suspended p

-- A sigsuspend that is not repeated.
abbrev pub suspend_next : List Action → Process → Option Process
suspend_next rest p =
    if p.pending then some (record p { rest = rest; flag = true; pending = false }) else none

-- sigprocmask with the mask of before
abbrev pub unmask_next : List Action → Process → Process
unmask_next rest p =
    if p.pending
    then record p { rest = rest; flag = true; pending = false; blocked = false }
    else record p { rest = rest; blocked = false }

-- F_SETLK: the lock is refused at once where the partner holds the byte.
abbrev pub lock_next : ℕ → List Action → Process → Process → Process
lock_next offset rest p partner =
    if partner.holds offset
    then record p { rest = rest; refused = offset ∷ p.refused }
    else record p { rest = rest; holds = write p.holds offset true }

abbrev pub with_partner : Process → Option Process → Option (Process × Process)
with_partner partner none = none
with_partner partner (some p) = some (p, partner)

-- The next action of a process, and what it makes of the partner; the end of the process gives up
-- its locks.
pub act : List Action → Process → Process → Option (Process × Process)
act [] p partner =
    if p.running then some (record p { running = false; holds = λ o. false }, partner) else none
act (lock_a_byte offset ∷ rest) p partner = some (lock_next offset rest p partner, partner)
act (tell ∷ rest) p partner = some (record p { rest = rest }, signalled partner)
act (wait false ∷ rest) p partner = with_partner partner (wait_next rest p)
act (wait true ∷ rest) p partner = with_partner partner (wait_reset_next rest p)
act (wait_masked ∷ rest) p partner = with_partner partner (wait_masked_next rest p)
act (suspend ∷ rest) p partner = with_partner partner (suspend_next rest p)
act (unmask ∷ rest) p partner = some (unmask_next rest p, partner)
act (sleep ∷ rest) p partner = some (record p { rest = rest }, partner)

-- tell_wait and fork: SIGUSR1 is blocked in both.
abbrev pub start : List Action → Process
start program = record {
  rest = program;
  flag = false;
  pending = false;
  blocked = true;
  running = true;
  holds = λ o. false;
  refused = [];
}

pub record System : Type 0 where
  pub parent : Process
  pub child : Process

abbrev pub init : List Action → List Action → System
init parent child = record { parent = start parent; child = start child }

-- A step of one of the two.
pub data Step (s : System) : System → Type 0 where
  by_parent :
      {p c : Process}
      → act s.parent.rest s.parent s.child ≡ some (p, c)
      → Step s (record { parent = p; child = c })
  by_child :
      {p c : Process}
      → act s.child.rest s.child s.parent ≡ some (c, p)
      → Step s (record { parent = p; child = c })

-- What is reached in a number of steps.
pub data Reach (parent child : List Action) : ℕ → System → Type 0 where
  here : Reach parent child 0 (init parent child)
  later : {n : ℕ} {s t : System} → Reach parent child n s → Step s t → Reach parent child (suc n) t

-- main of 14.advio/02_deadlock.c, after fork.
abbrev pub locking_child : List Action
locking_child = lock_a_byte 0 ∷ tell ∷ wait false ∷ lock_a_byte 1 ∷ []

abbrev pub locking_parent : List Action
locking_parent = lock_a_byte 1 ∷ tell ∷ wait false ∷ sleep ∷ lock_a_byte 0 ∷ []

-- main of 10.signals/14_tell_wait.c, after fork, for a value of PARENT_FIRST.
abbrev pub telling_child : Bool → List Action
telling_child parent_first = if parent_first then wait true ∷ [] else sleep ∷ tell ∷ []

abbrev pub telling_parent : Bool → List Action
telling_parent parent_first = if parent_first then sleep ∷ tell ∷ [] else wait true ∷ []

-- lockfile of 14.advio/04_mandatory.c, a lock of the whole file.
abbrev pub lockfile : Action
lockfile = lock_a_byte 0

-- main of 14.advio/04_mandatory.c, after fork.
abbrev pub mandatory_child : List Action
mandatory_child = lockfile ∷ tell ∷ suspend ∷ unmask ∷ []

abbrev pub mandatory_parent : List Action
mandatory_parent = wait_masked ∷ lockfile ∷ sleep ∷ tell ∷ unmask ∷ []
