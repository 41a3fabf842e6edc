-- ===== src/Signals/Jump/Examples.antt =====
-- SIGALRM comes while sig_usr1 computes.
use myapue.Base.{refl, false, true, some, length, ◌≤◌, [], ◌∷◌}
use myapue.Signals.Jump.{
  Mask, Leftovers, System, Reach, here, later, main, handler, deliver_usr1, deliver_alrm, Main,
  Place, Signal, Handler, HandlerPlace,
}
use myapue.Signals.Jump.Invariant.{IsSound, Reach-IsSound}

abbrev nothing_blocked : Mask
nothing_blocked = record { usr1 = false; alrm = false }

-- What the stack holds by chance: SIGUSR1 in the sa_mask of sig_alarm.
abbrev by_chance : Leftovers
by_chance = record {
  usr1 = record { sa_mask = nothing_blocked; nodefer = false; resethand = true };
  alrm = record {
    sa_mask = record { usr1 = true; alrm = false };
    nodefer = false;
    resethand = false;
  };
}

abbrev nested : System
nested = record {
  place = Place.pausing;
  frames =
      record { place = HandlerPlace.second; restore = record { usr1 = true; alrm = false } }
      ∷ record { place = HandlerPlace.computing; restore = nothing_blocked }
      ∷ [];
  mask = record { usr1 = true; alrm = true };
  buffer = some nothing_blocked;
  canjump = true;
  usr1_installed = false;
  alrm_installed = true;
  lines = record { in_handler = true; asked = Signal.sigalrm; member = true } ∷ [];
  wild = false;
}

alarm_within : Reach by_chance nothing_blocked nested
alarm_within =
    later
      (later
        (later
          (later
            (later
              (later
                (later (later here (main refl refl Main.install_usr1))
                  (main refl refl Main.install_alrm))
                (main refl refl Main.mark))
              (main refl refl Main.allow))
            (deliver_usr1 refl refl refl))
          (handler _ _ refl refl (Handler.alarm refl)))
        (deliver_alrm refl refl refl))
      (handler _ _ refl refl Handler.tell_alrm)

Reach-IsSound_example : IsSound by_chance nothing_blocked nested × (length nested.frames ≤ 2)
Reach-IsSound_example =
    Reach-IsSound (record { usr1_defers = refl; alrm_defers = refl }) alarm_within
