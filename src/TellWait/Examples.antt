-- ===== src/TellWait/Examples.antt =====
-- The theorem at a concrete run, in which the parent prints its line.
use myapue.Base.{◌≤◌, refl, true, false, [], ◌∷◌}
use myapue.TellWait.{
  Line, System, Reach, here, later, by_parent, by_child, ParentStep, ChildStep, Parent, Child,
}
use myapue.TellWait.Order.{FollowsUnless, GoesOn, Reach-FollowsUnless}

abbrev told : System
told = record {
  parent = Parent.waiting;
  child = Child.leaving;
  bytes = 0;
  parent_writes = false;
  child_writes = true;
  lines = Line.parent_run ∷ Line.child_end ∷ Line.child_start ∷ [];
  killed = false;
}

parent_told : Reach 9 told
parent_told =
    later
      (later
        (later
          (later
            (later
              (later
                (later
                  (later (later here (by_parent refl ParentStep.fork))
                    (by_child refl ChildStep.tell_start))
                  (by_child refl ChildStep.awake))
                (by_child refl ChildStep.tell_end))
              (by_child refl ChildStep.close_read))
            (by_child refl ChildStep.write))
          (by_parent refl ParentStep.close_write))
        (by_parent refl (ParentStep.read_byte 0 refl)))
      (by_parent refl ParentStep.tell_run)

Reach-FollowsUnless_example : FollowsUnless told.killed told.lines × GoesOn told × (9 ≤ 11)
Reach-FollowsUnless_example = Reach-FollowsUnless parent_told
