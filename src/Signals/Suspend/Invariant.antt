-- ===== src/Signals/Suspend/Invariant.antt =====
-- What holds whenever the signals come.
use myapue.Base.{
  suc, ◌+◌, ◌≤◌, ◌≡◌, refl, arith, ◌||◌, Bool, true, false, List, [], ◌∷◌, length, All,
}
use myapue.Signals.Suspend.{
  Leftover, mask_in, Signal, sigint, sigquit, Mask, is_member, suspend_mask, block_int, Place,
  within_int, within_quit, suspending, suspended, after_int, after_quit, restoring, over,
  HandlerPlace, Frame, Line, System, Main, install, install_fails, tell_before_int,
  tell_before_quit, block, tell_within_int, tell_within_quit, suspend, tell_after_int,
  tell_after_quit, restore, restore_fails, tell_end_int, tell_end_quit, Handler, tell_int,
  tell_quit, leave, end_suspend, end_pause, Step, main, handler, send_int, send_quit, deliver_int,
  kill_int, kill_quit, Reach, here, later, init,
}

-- Between sigprocmask(SIG_BLOCK) and sigprocmask(SIG_SETMASK), but for sigsuspend.
abbrev pub in_region : Place → Bool
in_region within_int = true
in_region within_quit = true
in_region suspending = true
in_region after_int = true
in_region after_quit = true
in_region restoring = true
in_region _ = false

-- The mask of main, from the mask of the start.
abbrev pub mask_at : Mask → Place → Mask
mask_at m suspended = suspend_mask
mask_at m within_int = block_int m
mask_at m within_quit = block_int m
mask_at m suspending = block_int m
mask_at m after_int = block_int m
mask_at m after_quit = block_int m
mask_at m restoring = block_int m
mask_at m _ = m

-- The mask is that of main, or that of main with SIGINT and sa_mask in the one run of sig_int, which
-- began where SIGINT was not blocked.
abbrev pub Masks : Leftover → Mask → Mask → List Frame → Type 0
Masks l m now [] = now ≡ m
Masks l m now (f ∷ []) = (now ≡ mask_in l m) × (f.restore ≡ m) × (m.int ≡ false)
Masks l m now (f ∷ g ∷ rest) = ⊥

-- A process that has ended runs no handler.
abbrev pub MasksAt : Leftover → Mask → Place → Mask → List Frame → Type 0
MasksAt l m over now frames = frames ≡ []
MasksAt l m p now frames = Masks l (mask_at m p) now frames

-- No handler runs in the region.
abbrev pub Guards : Bool → List Frame → Type 0
Guards true frames = frames ≡ []
Guards false frames = length frames ≤ 1

-- sigsuspend has returned after one run of sig_int, and the masks to come back to are kept.
abbrev pub Waits : Mask → Place → System → Type 0
Waits m within_int s = s.old_mask ≡ m
Waits m within_quit s = s.old_mask ≡ m
Waits m suspending s = s.old_mask ≡ m
Waits m suspended s =
    (s.old_mask ≡ m) × (s.saved ≡ block_int m) × (s.caught ≡ length s.frames + s.mark)
Waits m after_int s = (s.old_mask ≡ m) × (s.caught ≡ suc s.mark)
Waits m after_quit s = (s.old_mask ≡ m) × (s.caught ≡ suc s.mark)
Waits m restoring s = (s.old_mask ≡ m) × (s.caught ≡ suc s.mark)
Waits m _ s = Unit

-- sig_int says that SIGINT is blocked, and of SIGQUIT what sa_mask or main has; main says what it has
-- blocked where it stands.
abbrev pub Says : Leftover → Mask → Bool → Place → Signal → Bool → Type 0
Says l m true p sigint member = member ≡ true
Says l m true p sigquit member = member ≡ (l.sa_mask.quit || (mask_at m p).quit)
Says l m false p signo member = member ≡ is_member signo (mask_at m p)

abbrev pub IsTrue : Leftover → Mask → Line → Type 0
IsTrue l m line = Says l m line.in_handler line.during line.asked line.member

pub record IsGuarded (l : Leftover) (m : Mask) (s : System) : Type 0 where
  pub masks : MasksAt l m s.place s.mask s.frames
  pub waits : Waits m s.place s
  pub lines : All (IsTrue l m) s.lines

module _ {l : Leftover} {m : Mask} (defers : l.nodefer ≡ false) where
  Main-IsGuarded :
      {s t : System} {p : Place}
      → IsGuarded l m s
      → s.frames ≡ []
      → s.place ≡ p
      → Main s p t
      → IsGuarded l m t
  Main-IsGuarded v e p install = ground (arith, e, p)
  Main-IsGuarded v e p install_fails = ground (arith, e, p)
  Main-IsGuarded v e p tell_before_int = ground (arith, e, p)
  Main-IsGuarded v e p tell_before_quit = ground (arith, e, p)
  Main-IsGuarded v e p block = ground (arith, e, p)
  Main-IsGuarded v e p tell_within_int = ground (arith, e, p)
  Main-IsGuarded v e p tell_within_quit = ground (arith, e, p)
  Main-IsGuarded v e p suspend = ground (arith, e, p)
  Main-IsGuarded v e p tell_after_int = ground (arith, e, p)
  Main-IsGuarded v e p tell_after_quit = ground (arith, e, p)
  Main-IsGuarded v e p restore = ground (arith, e, p)
  Main-IsGuarded v e p restore_fails = ground (arith, e, p)
  Main-IsGuarded v e p tell_end_int = ground (arith, e, p)
  Main-IsGuarded v e p tell_end_quit = ground (arith, e, p)

  Handler-IsGuarded :
      {s t : System} {f : Frame} {rest : List Frame} {h : HandlerPlace}
      → IsGuarded l m s
      → s.frames ≡ f ∷ rest
      → f.place ≡ h
      → Handler s f rest h t
      → IsGuarded l m t
  Handler-IsGuarded v e p tell_int = ground (arith, e, p)
  Handler-IsGuarded v e p tell_quit = ground (arith, e, p)
  Handler-IsGuarded v e p (leave moving) = ground (arith, e, p)
  Handler-IsGuarded v e p (end_suspend at) = ground (arith, e, p)
  Handler-IsGuarded v e p (end_pause at) = ground (arith, e, p)

  Step-IsGuarded : {s t : System} → IsGuarded l m s → Step l s t → IsGuarded l m t
  Step-IsGuarded v (main e p a) = Main-IsGuarded v e p a
  Step-IsGuarded v (handler f rest e p a) = Handler-IsGuarded v e p a
  Step-IsGuarded v send_int = ground arith
  Step-IsGuarded v send_quit = ground arith
  Step-IsGuarded v (deliver_int alive come open_to set) = ground arith
  Step-IsGuarded v (kill_int come open_to unset) = ground arith
  Step-IsGuarded v (kill_quit come open_to) = ground arith

  start-IsGuarded : (unset : Mask) → IsGuarded l m (init m unset)
  start-IsGuarded unset = record { masks = refl; waits = tt; lines = tt }

  invariant_kept : {unset : Mask} {s : System} → Reach l m unset s → IsGuarded l m s
  invariant_kept {unset} here = start-IsGuarded unset
  invariant_kept (later r step) = Step-IsGuarded (invariant_kept r) step

  IsGuarded-Guards : (s : System) → IsGuarded l m s → Guards (in_region s.place) s.frames
  IsGuarded-Guards s v = ground (arith, v.masks)

-- Whatever the stack has left in sa_mask and sa_flags of siga, but for SA_NODEFER, in every state
-- that the program reaches from the mask `m`, whenever SIGINT and SIGQUIT come, up to its end:
-- between the sigprocmask that blocks SIGINT and the one that brings the old mask back no handler
-- runs, except in sigsuspend, and at most one runs elsewhere; the mask is `m`, with SIGINT in that
-- region, and only SIGQUIT in sigsuspend, with SIGINT and the signals of sa_mask while the handler
-- runs; behind sigsuspend the handler has been entered just once since its call, also where SIGINT
-- had come before it, and the mask to be brought back is `m`; and each line of prin_mask is true:
-- in main it says which signals are blocked at that place, and in the handler that SIGINT is.
pub Reach-IsGuarded :
    {l : Leftover} {m unset : Mask} {s : System}
    → l.nodefer ≡ false
    → Reach l m unset s
    → IsGuarded l m s × Guards (in_region s.place) s.frames
Reach-IsGuarded {l} {m} {unset} {s} defers r =
    let v = invariant_kept defers r in (v, IsGuarded-Guards defers s v)
