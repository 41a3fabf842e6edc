-- ===== src/Threads/Quit/Invariant.antt =====
-- What holds in every state that the program reaches, and that main is never left asleep.
use myapue.Base.{ℕ, ◌+◌, ◌≡◌, ◌≢◌, refl, arith, Bool, true, false}
use myapue.Threads.Quit.{
  Handler, setting, done, signalling, ended, Main, testing, waiting, leaving, past, System, Handles,
  interrupt, quit, fail, lock, set, unlock, signal, Waits, take, wait, wakes, retake, leave,
  release, handles, waits, Reach, here, later,
}

-- Whether a thread is between lock and unlock.
abbrev pub handler_inside : Handler → ℕ
handler_inside setting = 1
handler_inside done = 1
handler_inside _ = 0

abbrev pub main_inside : Main → ℕ
main_inside testing = 1
main_inside leaving = 1
main_inside _ = 0

abbrev pub held : Bool → ℕ
held true = 1
held false = 0

-- The thread has set `flag`.
abbrev pub has_set : Handler → Bool
has_set done = true
has_set signalling = true
has_set ended = true
has_set _ = false

-- main is behind its loop.
abbrev pub is_past : Main → Bool
is_past leaving = true
is_past past = true
is_past _ = false

pub record IsKept (s : System) : Type 0 where
  pub exclusive : handler_inside s.handler + main_inside s.main ≡ held s.mutex
  pub flagged : s.flag ≡ has_set s.handler
  pub left : is_past s.main ≡ true → s.flag ≡ true
  pub awake : s.main ≡ waiting → s.handler ≢ ended

Handles-IsKept : {s t : System} {h : Handler} → IsKept s → s.handler ≡ h → Handles s h t → IsKept t
Handles-IsKept v e interrupt = v
Handles-IsKept v e quit = ground (arith, e)
Handles-IsKept v e fail = ground (arith, e)
Handles-IsKept v e (lock free) = ground (arith, e)
Handles-IsKept v e set = ground (arith, e)
Handles-IsKept v e unlock = ground (arith, e)
Handles-IsKept v e signal = ground (arith, e)

Waits-IsKept : {s t : System} {m : Main} → IsKept s → s.main ≡ m → Waits s m t → IsKept t
Waits-IsKept v e (take free) = ground (arith, e)
Waits-IsKept v e (wait down) = ground (arith, e)
Waits-IsKept v e wakes = ground (arith, e)
Waits-IsKept v e (retake free) = ground (arith, e)
Waits-IsKept v e (leave up) = ground (arith, e)
Waits-IsKept v e release = ground (arith, e)

pub Reach-IsKept : {s : System} → Reach s → IsKept s
Reach-IsKept here = record { exclusive = refl; flagged = refl; left = λ h. cc; awake = λ h. cc }
Reach-IsKept (later r (handles e h)) = Handles-IsKept (Reach-IsKept r) e h
Reach-IsKept (later r (waits e w)) = Waits-IsKept (Reach-IsKept r) e w
