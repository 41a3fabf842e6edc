-- ===== src/Threads/Quit/Examples.antt =====
-- main waits, and then SIGQUIT comes.
use myapue.Base.{refl, false}
use myapue.Threads.Quit.{System, Handler, Main, Reach, here, later, handles, waits, Handles, Waits}
use myapue.Threads.Quit.Ends.{Ends, Reach-Ends}

abbrev asked_to_quit : System
asked_to_quit = record {
  flag = false;
  mutex = false;
  handler = Handler.quitting;
  main = Main.waiting;
}

quit_while_waiting : Reach asked_to_quit
quit_while_waiting =
    later (later (later here (waits refl (Waits.take refl))) (waits refl (Waits.wait refl)))
      (handles refl Handles.quit)

Reach-Ends_example : Ends asked_to_quit
Reach-Ends_example = Reach-Ends quit_while_waiting refl
