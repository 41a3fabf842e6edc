-- ===== src/Signals/Jump.antt =====
-- 10.signals/10_mask.c and 10.signals/11_mask.c: a handler that jumps back to main, with the signal
-- mask. The signals come at any time, the one within the handler of the other too. A step is a call,
-- or the delivery of a signal. The programs leave sa_mask and sa_flags unset: what the stack has
-- there is a parameter.
pub mod Invariant
mod Examples
use myapue.Base.{ℕ, ◌≡◌, if◌then◌else◌, ◌||◌, Bool, true, false, List, [], ◌∷◌, Option, none, some}

pub data Signal : Type 0 where
  sigusr1 : Signal
  sigalrm : Signal

-- Which of the two signals are blocked.
pub record Mask : Type 0 where
  pub usr1 : Bool
  pub alrm : Bool

abbrev pub is_member : Signal → Mask → Bool
is_member sigusr1 m = m.usr1
is_member sigalrm m = m.alrm

abbrev pub add : Signal → Mask → Mask
add sigusr1 m = record m { usr1 = true }
add sigalrm m = record m { alrm = true }

-- Where main stands.
pub data Place : Type 0 where
  starting : Place  -- before the first sigaction
  installing : Place  -- before the second
  marking : Place  -- before sigsetjmp
  marked : Place  -- before canjump = 1
  pausing : Place  -- in the loop
  jumped : Place  -- sigsetjmp has returned 1
  asking : Place  -- between the two calls of prin_mask
  telling : Place  -- after them, before exit
  over : Place  -- after exit or a return

abbrev pub is_alive : Place → Bool
is_alive over = false
is_alive _ = true

-- Where a handler stands.
pub data HandlerPlace : Type 0 where
  testing : HandlerPlace  -- sig_usr1, before the test of canjump
  computing : HandlerPlace  -- sig_usr1, after alarm
  refusing : HandlerPlace  -- sig_usr1, before its return
  first : HandlerPlace  -- sig_alarm, before the first prin_mask
  second : HandlerPlace  -- sig_alarm, before the second
  leaving : HandlerPlace  -- sig_alarm, before its return

abbrev pub signal_of : HandlerPlace → Signal
signal_of testing = sigusr1
signal_of computing = sigusr1
signal_of refusing = sigusr1
signal_of _ = sigalrm

-- A handler that runs, with the mask that its return brings back.
pub record Frame : Type 0 where
  pub place : HandlerPlace
  pub restore : Mask

-- What the stack has left in sa_mask and sa_flags of a struct sigaction: the signals of sa_mask, and
-- whether SA_NODEFER and SA_RESETHAND are set. The other flags do not matter here.
pub record Leftover : Type 0 where
  pub sa_mask : Mask
  pub nodefer : Bool
  pub resethand : Bool

-- The same for s_usr1 and s_alarm.
pub record Leftovers : Type 0 where
  pub usr1 : Leftover
  pub alrm : Leftover

abbrev pub leftover_of : Signal → Leftovers → Leftover
leftover_of sigusr1 u = u.usr1
leftover_of sigalrm u = u.alrm

abbrev pub union : Mask → Mask → Mask
union a b = record { usr1 = a.usr1 || b.usr1; alrm = a.alrm || b.alrm }

-- The mask in a handler: that from before it with sa_mask, and with the signal itself unless
-- SA_NODEFER is set.
abbrev pub mask_in : Leftovers → Signal → Mask → Mask
mask_in u signo m =
    let l = leftover_of signo u in
    if l.nodefer then union l.sa_mask m else add signo (union l.sa_mask m)

-- What a call of prin_mask says: whether a handler calls it, and whether the signal is blocked.
pub record Line : Type 0 where
  pub in_handler : Bool
  pub asked : Signal
  pub member : Bool

-- The process, the innermost handler first; `buffer` is what sigsetjmp has saved in j_buf, and
-- `wild` says that siglongjmp has gone to a buffer that was not set.
pub record System : Type 0 where
  pub place : Place
  pub frames : List Frame
  pub mask : Mask
  pub buffer : Option Mask
  pub canjump : Bool
  pub usr1_installed : Bool
  pub alrm_installed : Bool
  pub lines : List Line
  pub wild : Bool

abbrev pub prin_mask : Bool → Signal → System → List Line
prin_mask in_handler signo s =
    record { in_handler = in_handler; asked = signo; member = is_member signo s.mask } ∷ s.lines

-- siglongjmp: the handlers are left, and the mask is that of sigsetjmp.
abbrev pub jump : Option Mask → System → System
jump (some m) s = record s { place = jumped; frames = []; mask = m }
jump none s = record s { wild = true }

-- SA_RESETHAND takes a handler off where it is entered.
abbrev pub stays : Leftover → Bool → Bool
stays l installed = if l.resethand then false else installed

abbrev pub usr1_stays : Leftovers → Signal → Bool → Bool
usr1_stays u sigusr1 installed = stays u.usr1 installed
usr1_stays u sigalrm installed = installed

abbrev pub alrm_stays : Leftovers → Signal → Bool → Bool
alrm_stays u sigusr1 installed = installed
alrm_stays u sigalrm installed = stays u.alrm installed

abbrev pub enter : Leftovers → HandlerPlace → System → System
enter u h s = record s {
  frames = record { place = h; restore = s.mask } ∷ s.frames;
  mask = mask_in u (signal_of h) s.mask;
  usr1_installed = usr1_stays u (signal_of h) s.usr1_installed;
  alrm_installed = alrm_stays u (signal_of h) s.alrm_installed;
}

-- A step of main, which stands still while a handler runs.
pub data Main (s : System) : Place → System → Type 0 where
  install_usr1 : Main s starting (record s { usr1_installed = true; place = installing })
  usr1_fails : Main s starting (record s { place = over })
  install_alrm : Main s installing (record s { alrm_installed = true; place = marking })
  alrm_fails : Main s installing (record s { place = over })
  mark : Main s marking (record s { buffer = some s.mask; place = marked })
  allow : Main s marked (record s { canjump = true; place = pausing })
  ask_alrm : Main s jumped (record s { lines = prin_mask false sigalrm s; place = asking })
  ask_usr1 : Main s asking (record s { lines = prin_mask false sigusr1 s; place = telling })
  exits : Main s telling (record s { place = over })

-- A step of the innermost handler `f`, behind which are the handlers `rest`.
pub data Handler (s : System) (f : Frame) (rest : List Frame) : HandlerPlace → System → Type 0 where
  refuse :
      s.canjump ≡ false
      → Handler s f rest testing (record s { frames = record f { place = refusing } ∷ rest })
  alarm :
      s.canjump ≡ true
      → Handler s f rest testing (record s { frames = record f { place = computing } ∷ rest })
  jump_back : Handler s f rest computing (jump s.buffer s)
  return_refused : Handler s f rest refusing (record s { frames = rest; mask = f.restore })
  tell_alrm :
      Handler s f rest first
        (record s { frames = record f { place = second } ∷ rest; lines = prin_mask true sigalrm s })
  tell_usr1 :
      Handler s f rest second (record s {
        frames = record f { place = leaving } ∷ rest;
        lines = prin_mask true sigusr1 s;
      })
  return_told : Handler s f rest leaving (record s { frames = rest; mask = f.restore })

pub data Step (u : Leftovers) (s : System) : System → Type 0 where
  main : {t : System} {p : Place} → s.frames ≡ [] → s.place ≡ p → Main s p t → Step u s t
  handler :
      {t : System} (f : Frame) (rest : List Frame) {h : HandlerPlace}
      → s.frames ≡ f ∷ rest
      → f.place ≡ h
      → Handler s f rest h t
      → Step u s t
  deliver_usr1 :
      is_alive s.place ≡ true
      → s.usr1_installed ≡ true
      → s.mask.usr1 ≡ false
      → Step u s (enter u testing s)
  deliver_alrm :
      is_alive s.place ≡ true
      → s.alrm_installed ≡ true
      → s.mask.alrm ≡ false
      → Step u s (enter u first s)
  -- A signal without a handler kills the process.
  kill_usr1 :
      s.usr1_installed ≡ false
      → s.mask.usr1 ≡ false
      → Step u s (record s { place = over; frames = [] })
  kill_alrm :
      s.alrm_installed ≡ false
      → s.mask.alrm ≡ false
      → Step u s (record s { place = over; frames = [] })

abbrev pub init : Mask → System
init m = record {
  place = starting;
  frames = [];
  mask = m;
  buffer = none;
  canjump = false;
  usr1_installed = false;
  alrm_installed = false;
  lines = [];
  wild = false;
}

-- With the mask `m` at the start.
pub data Reach (u : Leftovers) (m : Mask) : System → Type 0 where
  here : Reach u m (init m)
  later : {s t : System} → Reach u m s → Step u s t → Reach u m t
