-- ===== src/TellWait.antt =====
-- 15.ipc1/03_tellwait.c: a parent that waits at a pipe until its child has run, interleaved in any
-- order. A step is a call of one of the two. pipe is taken to succeed, as the program does.
pub mod Order
mod Examples
use myapue.Base.{ℕ, zero, suc, ◌+◌, ◌<◌, ◌≡◌, Bool, true, false, List, [], ◌∷◌}

-- Where the parent stands.
pub data Parent : Type 0 where
  forking : Parent  -- before fork
  closing : Parent  -- before close(fd[1])
  reading : Parent  -- before read, or in it
  telling : Parent  -- before its printf
  waiting : Parent  -- before waitpid, or in it
  ended : Parent

-- Where the child stands.
pub data Child : Type 0 where
  unborn : Child
  starting : Child  -- before its first printf
  sleeping : Child
  finishing : Child  -- before its second printf
  closing_read : Child  -- before close(fd[0])
  writing : Child
  leaving : Child  -- before the return of main
  gone : Child

abbrev pub is_alive : Child → Bool
is_alive unborn = false
is_alive gone = false
is_alive _ = true

-- What is printed.
pub data Line : Type 0 where
  parent_run : Line
  child_start : Line
  child_end : Line

-- The two processes, the bytes in the pipe, which of them can write into it, what was printed,
-- the latest first, and whether a signal has killed the child.
pub record System : Type 0 where
  pub parent : Parent
  pub child : Child
  pub bytes : ℕ
  pub parent_writes : Bool
  pub child_writes : Bool
  pub lines : List Line
  pub killed : Bool

-- A step of the parent. read answers a byte, or the end where nobody can write any more.
pub data ParentStep (s : System) : Parent → System → Type 0 where
  fork : ParentStep s forking (record s { parent = closing; child = starting; child_writes = true })
  fork_fails : ParentStep s forking (record s { parent = ended })
  close_write : ParentStep s closing (record s { parent_writes = false; parent = reading })
  read_byte :
      (n : ℕ) → s.bytes ≡ suc n → ParentStep s reading (record s { bytes = n; parent = telling })
  read_end :
      s.bytes ≡ 0
      → s.parent_writes ≡ false
      → s.child_writes ≡ false
      → ParentStep s reading (record s { parent = telling })
  tell_run : ParentStep s telling (record s { lines = parent_run ∷ s.lines; parent = waiting })
  wait_child : s.child ≡ gone → ParentStep s waiting (record s { parent = ended })

-- A step of the child, whose exit closes the pipe.
pub data ChildStep (s : System) : Child → System → Type 0 where
  tell_start : ChildStep s starting (record s { lines = child_start ∷ s.lines; child = sleeping })
  awake : ChildStep s sleeping (record s { child = finishing })
  tell_end : ChildStep s finishing (record s { lines = child_end ∷ s.lines; child = closing_read })
  close_read : ChildStep s closing_read (record s { child = writing })
  write : ChildStep s writing (record s { bytes = s.bytes + 1; child = leaving })
  leave : ChildStep s leaving (record s { child_writes = false; child = gone })

pub data Step (s : System) : System → Type 0 where
  by_parent : {t : System} {p : Parent} → s.parent ≡ p → ParentStep s p t → Step s t
  by_child : {t : System} {c : Child} → s.child ≡ c → ChildStep s c t → Step s t
  kill :
      is_alive s.child ≡ true
      → Step s (record s { child_writes = false; child = gone; killed = true })

abbrev pub init : System
init = record {
  parent = forking;
  child = unborn;
  bytes = 0;
  parent_writes = true;
  child_writes = false;
  lines = [];
  killed = false;
}

-- The states after n steps.
pub data Reach : ℕ → System → Type 0 where
  here : Reach 0 init
  later : {n : ℕ} {s t : System} → Reach n s → Step s t → Reach (suc n) t
