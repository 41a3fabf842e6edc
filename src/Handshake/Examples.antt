-- ===== src/Handshake/Examples.antt =====
-- The programs of the two files.
use myapue.Base.{ℕ, inr, refl, Bool, true, false, inl, [], ◌∷◌, arith}
use myapue.Threads.Runs.{write}
use myapue.Handshake.{
  Action, System, act, by_child, Reach, here, later, start, locking_child, locking_parent,
  telling_child, telling_parent, mandatory_child, mandatory_parent,
}
use myapue.Handshake.Invariant.{IsPaired}
use myapue.Handshake.Finishes.{Finishes, Reach-Finishes}

locking_pair : IsPaired locking_parent locking_child
locking_pair = record {
  parent_few = omega arith;
  child_few = omega arith;
  parent_asks = λ h. omega arith;
  child_asks = λ h. omega arith;
  parent_masked = refl;
  child_masked = refl;
}

telling_pair : (first : Bool) → IsPaired (telling_parent first) (telling_child first)
telling_pair true = record {
  parent_few = omega arith;
  child_few = omega arith;
  parent_asks = λ h. omega arith;
  child_asks = λ h. omega arith;
  parent_masked = refl;
  child_masked = refl;
}
telling_pair false = record {
  parent_few = omega arith;
  child_few = omega arith;
  parent_asks = λ h. omega arith;
  child_asks = λ h. omega arith;
  parent_masked = refl;
  child_masked = refl;
}

mandatory_pair : IsPaired mandatory_parent mandatory_child
mandatory_pair = record {
  parent_few = omega arith;
  child_few = omega arith;
  parent_asks = λ h. omega arith;
  child_asks = λ h. omega arith;
  parent_masked = refl;
  child_masked = refl;
}

mandatory-Finishes :
    {n : ℕ} {s : System}
    → Reach mandatory_parent mandatory_child n s
    → Finishes mandatory_parent mandatory_child n s
mandatory-Finishes r = Reach-Finishes mandatory_pair (inr refl) r

-- The child has its lock and has told the parent.
abbrev child_first : System
child_first = record {
  parent = record (start locking_parent) { pending = true };
  child = record (start locking_child) {
    rest = Action.wait false ∷ Action.lock_a_byte 1 ∷ [];
    holds = write (λ o. false) 0 true;
  };
}

child_tells : Reach locking_parent locking_child 2 child_first
unfolding act
child_tells = later (later here (by_child refl)) (by_child refl)

Reach-Finishes_example : Finishes locking_parent locking_child 2 child_first
Reach-Finishes_example = Reach-Finishes locking_pair (inl refl) child_tells
