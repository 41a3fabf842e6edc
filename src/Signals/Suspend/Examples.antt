-- ===== src/Signals/Suspend/Examples.antt =====
-- SIGINT comes in the region, and waits for sigsuspend.
use myapue.Base.{refl, false, true, [], ◌∷◌}
use myapue.Signals.Suspend.{
  Mask, Leftover, block_int, suspend_mask, System, Reach, here, later, main, send_int, deliver_int,
  Main, Place, HandlerPlace, Signal,
}
use myapue.Signals.Suspend.Invariant.{IsGuarded, Guards, in_region, Reach-IsGuarded}

abbrev nothing_blocked : Mask
nothing_blocked = record { int = false; quit = false }

-- What the stack holds by chance.
abbrev by_chance : Leftover
by_chance = record { sa_mask = nothing_blocked; nodefer = false; resethand = true }

abbrev caught_once : System
caught_once = record {
  place = Place.suspended;
  frames = record { place = HandlerPlace.asking_int; restore = suspend_mask } ∷ [];
  mask = record { int = true; quit = true };
  old_mask = nothing_blocked;
  saved = block_int nothing_blocked;
  installed = false;
  pending_int = false;
  pending_quit = false;
  caught = 1;
  mark = 0;
  lines =
      record {
        in_handler = false;
        during = Place.within_quit;
        asked = Signal.sigquit;
        member = false;
      }
      ∷ record {
        in_handler = false;
        during = Place.within_int;
        asked = Signal.sigint;
        member = true;
      }
      ∷ record {
        in_handler = false;
        during = Place.before_quit;
        asked = Signal.sigquit;
        member = false;
      }
      ∷ record {
        in_handler = false;
        during = Place.before_int;
        asked = Signal.sigint;
        member = false;
      }
      ∷ [];
}

signal_in_region : Reach by_chance nothing_blocked nothing_blocked caught_once
signal_in_region =
    later
      (later
        (later
          (later
            (later
              (later
                (later
                  (later (later here (main refl refl Main.install))
                    (main refl refl Main.tell_before_int))
                  (main refl refl Main.tell_before_quit))
                (main refl refl Main.block))
              send_int)
            (main refl refl Main.tell_within_int))
          (main refl refl Main.tell_within_quit))
        (main refl refl Main.suspend))
      (deliver_int refl refl refl refl)

Reach-IsGuarded_example :
    IsGuarded by_chance nothing_blocked caught_once
    × Guards (in_region caught_once.place) caught_once.frames
Reach-IsGuarded_example = Reach-IsGuarded refl signal_in_region
