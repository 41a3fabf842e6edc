-- ===== src/Signals/Jump/Invariant.antt =====
-- What holds whenever the signals come.
use myapue.Base.{
  if◌then◌else◌, ◌||◌, ℕ, ◌+◌, ◌≤◌, ◌≡◌, refl, arith, Bool, true, false, List, [], ◌∷◌, some,
  length, All,
}
use myapue.Signals.Jump.{
  Signal, sigusr1, sigalrm, Mask, is_member, Place, marked, pausing, HandlerPlace, testing,
  computing, first, signal_of, Frame, Line, System, enter, Main, install_usr1, usr1_fails,
  install_alrm, alrm_fails, mark, allow, ask_alrm, ask_usr1, exits, Handler, refuse, alarm,
  jump_back, return_refused, tell_alrm, tell_usr1, return_told, Step, main, handler, deliver_usr1,
  deliver_alrm, kill_usr1, kill_alrm, Leftovers, mask_in, is_alive, Reach, here, later,
}

-- The mask is that of the start with what each handler that runs has added, which began where its
-- signal was not blocked.
abbrev pub Masks : Leftovers → Mask → Mask → List Frame → Type 0
Masks u m now [] = now ≡ m
Masks u m now (f ∷ rest) =
    (now ≡ mask_in u (signal_of f.place) f.restore)
    × (is_member (signal_of f.place) f.restore ≡ false)
    × Masks u m f.restore rest

-- A process that has ended runs no handler.
abbrev pub MasksIf : Leftovers → Mask → Bool → Mask → List Frame → Type 0
MasksIf u m true now frames = Masks u m now frames
MasksIf u m false now frames = frames ≡ []

-- Neither sa_flags has SA_NODEFER.
pub record Defers (u : Leftovers) : Type 0 where
  pub usr1_defers : u.usr1.nodefer ≡ false
  pub alrm_defers : u.alrm.nodefer ≡ false

-- main Says what the mask of the start was, and sig_alarm that SIGALRM is blocked.
abbrev pub Says : Mask → Bool → Signal → Bool → Type 0
Says m false signo member = member ≡ is_member signo m
Says m true sigalrm member = member ≡ true
Says m true sigusr1 member = Unit {0}

abbrev pub IsTrue : Mask → Line → Type 0
IsTrue m l = Says m l.in_handler l.asked l.member

-- main has called sigsetjmp.
abbrev pub has_marked : Place → Bool
has_marked marked = true
has_marked pausing = true
has_marked _ = false

-- sig_usr1 has passed its test in some handler.
abbrev pub is_computing : HandlerPlace → Bool
is_computing computing = true
is_computing _ = false

abbrev pub computes : List Frame → Bool
computes [] = false
computes (f ∷ rest) = is_computing f.place || computes rest

pub record IsSound (u : Leftovers) (m : Mask) (s : System) : Type 0 where
  pub masks : MasksIf u m (is_alive s.place) s.mask s.frames
  pub ready : has_marked s.place ≡ true → s.buffer ≡ some m
  pub armed : s.canjump ≡ true → s.buffer ≡ some m
  pub started : computes s.frames ≡ true → s.canjump ≡ true
  pub aimed : s.wild ≡ false
  pub lines : All (IsTrue m) s.lines

weight : Mask → ℕ
weight k = (if k.usr1 then 1 else 0) + (if k.alrm then 1 else 0)

weight-le : (k : Mask) → weight k ≤ 2
unfolding weight
weight-le k = ground arith

-- Each handler that runs has blocked its own signal.
Masks-length :
    (u : Leftovers) (m now : Mask) (frames : List Frame)
    → Defers u
    → Masks u m now frames
    → length frames + weight m ≤ weight now
unfolding weight
Masks-length u m now [] d h = ground (arith, h)
Masks-length u m now (f ∷ rest) d h =
    ground (arith, h, d.usr1_defers, d.alrm_defers, Masks-length u m f.restore rest d h.2)

module _ {u : Leftovers} {m : Mask} (d : Defers u) where
  Main-IsSound :
      {s t : System} {p : Place}
      → IsSound u m s
      → s.frames ≡ []
      → s.place ≡ p
      → Main s p t
      → IsSound u m t
  Main-IsSound v e p install_usr1 = ground (arith, e, p)
  Main-IsSound v e p usr1_fails = ground (arith, e, p)
  Main-IsSound v e p install_alrm = ground (arith, e, p)
  Main-IsSound v e p alrm_fails = ground (arith, e, p)
  Main-IsSound v e p mark = ground (arith, e, p)
  Main-IsSound v e p allow = ground (arith, e, p)
  Main-IsSound v e p ask_alrm = ground (arith, e, p)
  Main-IsSound v e p ask_usr1 = ground (arith, e, p)
  Main-IsSound v e p exits = ground (arith, e, p)

  Handler-IsSound :
      {s t : System} {f : Frame} {rest : List Frame} {h : HandlerPlace}
      → IsSound u m s
      → s.frames ≡ f ∷ rest
      → f.place ≡ h
      → Handler s f rest h t
      → IsSound u m t
  Handler-IsSound v e p (refuse no_jump) = ground (arith, e, p)
  Handler-IsSound v e p (alarm can) = ground (arith, e, p)
  Handler-IsSound v e p jump_back = ground (arith, e, p)
  Handler-IsSound v e p return_refused = ground (arith, e, p)
  Handler-IsSound v e p tell_alrm = ground (arith, e, p)
  Handler-IsSound v e p tell_usr1 = ground (arith, e, p)
  Handler-IsSound v e p return_told = ground (arith, e, p)

  enter-IsSound :
      {s : System} (h : HandlerPlace)
      → IsSound u m s
      → is_alive s.place ≡ true
      → is_computing h ≡ false
      → is_member (signal_of h) s.mask ≡ false
      → IsSound u m (enter u h s)
  enter-IsSound h v alive c b = record {
    masks = rw alive (refl, b, rw alive at v.masks);
    ready = v.ready;
    armed = v.armed;
    started = λ e. v.started (ground (arith, e, c));
    aimed = v.aimed;
    lines = v.lines;
  }

  Step-IsSound : {s t : System} → IsSound u m s → Step u s t → IsSound u m t
  Step-IsSound v (main e p a) = Main-IsSound v e p a
  Step-IsSound v (handler f rest e p a) = Handler-IsSound v e p a
  Step-IsSound v (deliver_usr1 alive set open_to) = enter-IsSound testing v alive refl open_to
  Step-IsSound v (deliver_alrm alive set open_to) = enter-IsSound first v alive refl open_to
  Step-IsSound v (kill_usr1 off open_to) = ground arith
  Step-IsSound v (kill_alrm off open_to) = ground arith

  invariant_kept : {s : System} → Reach u m s → IsSound u m s
  invariant_kept here = record {
    masks = refl;
    ready = λ h. cc;
    armed = λ h. cc;
    started = λ h. cc;
    aimed = refl;
    lines = tt;
  }
  invariant_kept (later r step) = Step-IsSound (invariant_kept r) step

bounded :
    (u : Leftovers) (m now : Mask) (frames : List Frame) (alive : Bool)
    → Defers u
    → MasksIf u m alive now frames
    → length frames ≤ 2
bounded u m now frames true d h = omega (arith, Masks-length u m now frames d h, weight-le now)
bounded u m now frames false d h = ground (arith, h)

-- Whatever the stack has left in sa_mask and sa_flags of the two struct sigaction, but for
-- SA_NODEFER, in every state that the program reaches from the mask `m`, whenever the signals come:
-- as long as it runs, the mask is `m` with the signal and the sa_mask of each handler that runs, so
-- that it is `m` again whenever no handler runs, also after siglongjmp; at most two handlers run;
-- siglongjmp goes only to a buffer that sigsetjmp has set; and what prin_mask tells is true: main
-- tells the mask of the start, and sig_alarm that SIGALRM is blocked.
pub Reach-IsSound :
    {u : Leftovers} {m : Mask} {s : System}
    → Defers u
    → Reach u m s
    → IsSound u m s × (length s.frames ≤ 2)
Reach-IsSound {u} {m} {s} d r =
    let v = invariant_kept d r in (v, bounded u m s.mask s.frames (is_alive s.place) d v.masks)
