-- ===== src/Threads/Quit/Ends.antt =====
-- After SIGQUIT main comes to its end.
use myapue.Base.{ℕ, ◌+◌, ◌*◌, ◌<◌, ◌≡◌, ◌⊎◌, inl, inr, refl, arith, Bool, Bool-cases, true, false}
use myapue.Threads.Quit.{
  Handler, awaiting, quitting, setting, done, signalling, ended, failed, Main, locking, testing,
  waiting, woken, leaving, past, System, Handles, interrupt, quit, fail, lock, set, unlock, signal,
  Waits, take, wait, wakes, retake, leave, release, Step, handles, waits, Reach,
}
use myapue.Threads.Quit.Invariant.{IsKept, Reach-IsKept}

-- Whether the thread has taken SIGQUIT.
abbrev pub has_quit : Handler → Bool
has_quit awaiting = false
has_quit failed = false
has_quit _ = true

abbrev handler_left : Handler → ℕ
handler_left quitting = 5
handler_left setting = 4
handler_left done = 3
handler_left signalling = 2
handler_left _ = 0

-- By whether `flag` is set.
abbrev main_left : Bool → Main → ℕ
main_left true waiting = 5
main_left true woken = 4
main_left true locking = 4
main_left true testing = 3
main_left true leaving = 2
main_left true past = 0
main_left false waiting = 4
main_left false testing = 5
main_left false _ = 6

abbrev pub steps_left : System → ℕ
steps_left s = 3 * handler_left s.handler + main_left s.flag s.main

abbrev pub spurious_wait : {s : System} {m : Main} {t : System} → Waits s m t → Bool
spurious_wait wakes = true
spurious_wait _ = false

abbrev pub is_spurious : {s t : System} → Step s t → Bool
is_spurious (handles e h) = false
is_spurious (waits e w) = spurious_wait w

-- Both have ended, or there is a step that is no spurious wakeup, and each such step counts down.
pub record Ends (s : System) : Type 0 where
  pub goes_on :
      ((s.handler ≡ ended) × (s.main ≡ past))
      ⊎ ((t : System) × (step : Step s t) × (is_spurious step ≡ false))
  pub counts_down :
      {t : System} (step : Step s t) → is_spurious step ≡ false → steps_left t < steps_left s

module _ {s : System} (v : IsKept s) (q : has_quit s.handler ≡ true) where
  Handles-lt :
      {t : System} {h : Handler} → s.handler ≡ h → Handles s h t → steps_left t < steps_left s
  Handles-lt e interrupt = absurd (ground (arith, e))
  Handles-lt e quit = absurd (ground (arith, e))
  Handles-lt e fail = absurd (ground (arith, e))
  Handles-lt e (lock free) = ground (arith, e)
  Handles-lt e set = ground (arith, e)
  Handles-lt e unlock = ground (arith, e)
  Handles-lt e signal = ground (arith, e)

  Waits-lt :
      {t : System} {m : Main}
      → s.main ≡ m
      → (w : Waits s m t) → spurious_wait w ≡ false
      → steps_left t < steps_left s
  Waits-lt e (take free) h = ground (arith, e)
  Waits-lt e (wait down) h = ground (arith, e)
  Waits-lt e wakes h = absurd (cc)
  Waits-lt e (retake free) h = ground (arith, e)
  Waits-lt e (leave up) h = ground (arith, e)
  Waits-lt e release h = ground (arith, e)

  Step-lt : {t : System} (step : Step s t) → is_spurious step ≡ false → steps_left t < steps_left s
  Step-lt (handles e h) n = Handles-lt e h
  Step-lt (waits e w) n = Waits-lt e w n

  abbrev GoesOn : Type 0
  GoesOn =
      ((s.handler ≡ ended) × (s.main ≡ past))
      ⊎ ((t : System) × (step : Step s t) × (is_spurious step ≡ false))

  -- main can go on unless it waits, has ended, or finds the mutex taken.
  main-GoesOn : (m : Main) → s.main ≡ m → s.handler ≡ ended → GoesOn
  main-GoesOn locking e h = inr (_, waits e (take (ground (arith, e, h))), refl)
  main-GoesOn testing e h = inr (_, waits e (leave (ground (arith, e, h))), refl)
  main-GoesOn waiting e h = absurd (v.awake e h)
  main-GoesOn woken e h = inr (_, waits e (retake (ground (arith, e, h))), refl)
  main-GoesOn leaving e h = inr (_, waits e release, refl)
  main-GoesOn past e h = inl (h, e)

  -- While the thread waits for the mutex, main has it.
  holder-GoesOn : (m : Main) → s.main ≡ m → s.handler ≡ quitting → s.mutex ≡ true → GoesOn
  holder-GoesOn testing e h b = elim (Bool-cases s.flag) [
    | inl up ↦ inr (_, waits e (leave up), refl)
    | inr down ↦ inr (_, waits e (wait down), refl)
  ]
  holder-GoesOn leaving e h b = inr (_, waits e release, refl)
  holder-GoesOn m e h b = absurd (ground (arith, v.exclusive, e, h, b))

  handler-GoesOn : (h : Handler) → s.handler ≡ h → GoesOn
  handler-GoesOn quitting e = elim (Bool-cases s.mutex) [
    | inl taken ↦ holder-GoesOn s.main refl e taken
    | inr free ↦ inr (_, handles e (lock free), refl)
  ]
  handler-GoesOn setting e = inr (_, handles e set, refl)
  handler-GoesOn done e = inr (_, handles e unlock, refl)
  handler-GoesOn signalling e = inr (_, handles e signal, refl)
  handler-GoesOn ended e = main-GoesOn s.main refl e
  handler-GoesOn h e = absurd (ground (arith, e, q))

-- In every state that the program reaches, in any order of the steps, from the moment on at which
-- the thread has taken SIGQUIT: the thread and main have ended, main behind its loop, or a step is
-- possible that is no spurious wakeup; and each such step makes the number of those left smaller, so
-- that main never sleeps through the signal.
pub Reach-Ends : {s : System} → Reach s → has_quit s.handler ≡ true → Ends s
Reach-Ends {s} r q =
    let v = Reach-IsKept r in
    record { goes_on = handler-GoesOn v q s.handler refl; counts_down = Step-lt v q }
