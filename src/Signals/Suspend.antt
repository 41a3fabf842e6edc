-- ===== src/Signals/Suspend.antt =====
-- 10.signals/12_suspend1.c: a region of main that SIGINT does not enter, with sigsuspend in its
-- middle. The signals come at any time. A step is a call, or what the kernel does with a signal. The
-- program leaves sa_mask and sa_flags unset: what the stack has there is a parameter.
pub mod Invariant
mod Examples
use myapue.Base.{◌||◌, if◌then◌else◌, ℕ, suc, ◌≡◌, Bool, true, false, List, [], ◌∷◌}

pub data Signal : Type 0 where
  sigint : Signal
  sigquit : Signal

-- Which of the two signals are blocked.
pub record Mask : Type 0 where
  pub int : Bool
  pub quit : Bool

abbrev pub is_member : Signal → Mask → Bool
is_member sigint m = m.int
is_member sigquit m = m.quit

-- suspend_mask
abbrev pub suspend_mask : Mask
suspend_mask = record { int = false; quit = true }

-- What the stack has left in sa_mask and sa_flags of siga: the signals of sa_mask, and whether
-- SA_NODEFER and SA_RESETHAND are set. The other flags do not matter here.
pub record Leftover : Type 0 where
  pub sa_mask : Mask
  pub nodefer : Bool
  pub resethand : Bool

abbrev pub union : Mask → Mask → Mask
union a b = record { int = a.int || b.int; quit = a.quit || b.quit }

-- SIG_BLOCK of new_mask.
abbrev pub block_int : Mask → Mask
block_int m = record m { int = true }

-- The mask in sig_int: that from before it with sa_mask, and with SIGINT unless SA_NODEFER is set.
abbrev pub mask_in : Leftover → Mask → Mask
mask_in l m = if l.nodefer then union l.sa_mask m else block_int (union l.sa_mask m)

-- SA_RESETHAND takes the handler off where it is entered.
abbrev pub stays : Leftover → Bool → Bool
stays l installed = if l.resethand then false else installed

-- Where main stands.
pub data Place : Type 0 where
  starting : Place  -- before sigaction
  before_int : Place  -- before the two prin_mask that follow
  before_quit : Place
  blocking : Place  -- before sigprocmask(SIG_BLOCK)
  within_int : Place
  within_quit : Place
  suspending : Place  -- before sigsuspend
  suspended : Place  -- in sigsuspend
  after_int : Place
  after_quit : Place
  restoring : Place  -- before sigprocmask(SIG_SETMASK)
  end_int : Place
  end_quit : Place
  pausing : Place  -- before pause, or in it
  over : Place  -- after a return, or killed

abbrev pub is_alive : Place → Bool
is_alive over = false
is_alive _ = true

-- The calls that the return of a handler ends.
abbrev pub is_waiting : Place → Bool
is_waiting suspended = true
is_waiting pausing = true
is_waiting _ = false

-- Where sig_int stands.
pub data HandlerPlace : Type 0 where
  asking_int : HandlerPlace  -- before prin_mask(SIGINT)
  asking_quit : HandlerPlace  -- before prin_mask(SIGQUIT)
  leaving : HandlerPlace

-- A run of sig_int, with the mask at its start.
pub record Frame : Type 0 where
  pub place : HandlerPlace
  pub restore : Mask

-- What a call of prin_mask says, and where it is called.
pub record Line : Type 0 where
  pub in_handler : Bool
  pub during : Place
  pub asked : Signal
  pub member : Bool

-- The process. `saved` is the mask from before sigsuspend, which the kernel keeps, and `caught` says how
-- often sig_int has been entered, `mark` how often it had been when main called sigsuspend.
pub record System : Type 0 where
  pub place : Place
  pub frames : List Frame
  pub mask : Mask
  pub old_mask : Mask
  pub saved : Mask
  pub installed : Bool
  pub pending_int : Bool
  pub pending_quit : Bool
  pub caught : ℕ
  pub mark : ℕ
  pub lines : List Line

abbrev pub prin_mask : Bool → Signal → System → List Line
prin_mask in_handler signo s =
    record {
      in_handler = in_handler;
      during = s.place;
      asked = signo;
      member = is_member signo s.mask;
    }
    ∷ s.lines

-- A call of prin_mask in main.
abbrev pub tell : Signal → Place → System → System
tell signo next s = record s { lines = prin_mask false signo s; place = next }

-- A step of main, which stands still while a handler runs.
pub data Main (s : System) : Place → System → Type 0 where
  install : Main s starting (record s { installed = true; place = before_int })
  install_fails : Main s starting (record s { place = over })
  tell_before_int : Main s before_int (tell sigint before_quit s)
  tell_before_quit : Main s before_quit (tell sigquit blocking s)
  block :
      Main s blocking (record s { old_mask = s.mask; mask = block_int s.mask; place = within_int })
  tell_within_int : Main s within_int (tell sigint within_quit s)
  tell_within_quit : Main s within_quit (tell sigquit suspending s)
  suspend :
      Main s suspending
        (record s { saved = s.mask; mask = suspend_mask; mark = s.caught; place = suspended })
  tell_after_int : Main s after_int (tell sigint after_quit s)
  tell_after_quit : Main s after_quit (tell sigquit restoring s)
  restore : Main s restoring (record s { mask = s.old_mask; place = end_int })
  restore_fails : Main s restoring (record s { place = over })
  tell_end_int : Main s end_int (tell sigint end_quit s)
  tell_end_quit : Main s end_quit (tell sigquit pausing s)

-- A step of the innermost run of sig_int, `f`, behind which are the runs `rest`. Its return ends
-- sigsuspend, which brings back the mask from before it, or pause.
pub data Handler (s : System) (f : Frame) (rest : List Frame) : HandlerPlace → System → Type 0 where
  tell_int : Handler s f rest asking_int (record s {
    frames = record f { place = asking_quit } ∷ rest;
    lines = prin_mask true sigint s;
  })
  tell_quit :
      Handler s f rest asking_quit (record s {
        frames = record f { place = leaving } ∷ rest;
        lines = prin_mask true sigquit s;
      })
  leave :
      is_waiting s.place ≡ false
      → Handler s f rest leaving (record s { frames = rest; mask = f.restore })
  end_suspend :
      s.place ≡ suspended
      → Handler s f rest leaving (record s { frames = rest; mask = s.saved; place = after_int })
  end_pause :
      s.place ≡ pausing
      → Handler s f rest leaving (record s { frames = rest; mask = f.restore; place = over })

pub data Step (l : Leftover) (s : System) : System → Type 0 where
  main : {t : System} {p : Place} → s.frames ≡ [] → s.place ≡ p → Main s p t → Step l s t
  handler :
      {t : System} (f : Frame) (rest : List Frame) {h : HandlerPlace}
      → s.frames ≡ f ∷ rest
      → f.place ≡ h
      → Handler s f rest h t
      → Step l s t
  -- A signal comes, and waits until it is not blocked.
  send_int : Step l s (record s { pending_int = true })
  send_quit : Step l s (record s { pending_quit = true })
  -- sig_int is entered.
  deliver_int :
      is_alive s.place ≡ true
      → s.pending_int ≡ true
      → s.mask.int ≡ false
      → s.installed ≡ true
      → Step l s (record s {
        frames = record { place = asking_int; restore = s.mask } ∷ s.frames;
        mask = mask_in l s.mask;
        installed = stays l s.installed;
        pending_int = false;
        caught = suc s.caught;
      })
  -- A signal without a handler kills the process.
  kill_int :
      s.pending_int ≡ true
      → s.mask.int ≡ false
      → s.installed ≡ false
      → Step l s (record s { place = over; frames = [] })
  kill_quit :
      s.pending_quit ≡ true
      → s.mask.quit ≡ false
      → Step l s (record s { place = over; frames = [] })

-- With the mask `m` at the start; old_mask and `saved` are not set.
abbrev pub init : Mask → Mask → System
init m unset = record {
  place = starting;
  frames = [];
  mask = m;
  old_mask = unset;
  saved = unset;
  installed = false;
  pending_int = false;
  pending_quit = false;
  caught = 0;
  mark = 0;
  lines = [];
}

pub data Reach (l : Leftover) (m unset : Mask) : System → Type 0 where
  here : Reach l m unset (init m unset)
  later : {s t : System} → Reach l m unset s → Step l s t → Reach l m unset t
