-- ===== src/FileTree.antt =====
-- 04.filedir/07_ftw.c: the walk of a file tree. What lies in the file system is a tree, with what
-- lstat, opendir, readdir and closedir answer for each file.
pub mod Visits
pub mod Counters
pub mod Folder
pub mod Walk
pub mod Program
mod Examples
use myapue.Base.{
  ℕ, zero, suc, ◌+◌, ◌-◌, ◌*◌, ltb, leb, if◌then◌else◌, ◌||◌, Bool, true, false, equal,
}
use myapue.Base.{List, [], ◌∷◌, ◌++◌, length, take}
use myapue.Posix.{Status, nonneg, minus_one}

-- st_mode & S_IFMT of what is not a directory
pub data Kind : Type 0 where
  regular : Kind
  block_special : Kind
  char_special : Kind
  fifo : Kind
  symlink : Kind
  socket : Kind

-- A file that lstat fails on, one that is not a directory, or a directory: whether opendir and
-- closedir succeed, and its entries in the order of readdir.
mutual
  pub data Node : Type 0 where
    unstatable : Node
    leaf : Kind → Node
    folder : (opens closes : Bool) → Entries → Node

  pub data Entries : Type 0 where
    no_more : Entries
    entry : (name : List ℕ) → Node → Entries → Entries

-- The third argument of myfunc, with the file's kind.
pub data Report : Type 0 where
  file : Kind → Report
  directory : Report
  read_error : Report
  stat_error : Report

-- The static counters.
pub record Counts : Type 0 where
  pub nreg : ℕ
  pub ndir : ℕ
  pub nblk : ℕ
  pub nchr : ℕ
  pub nfifo : ℕ
  pub nslink : ℕ
  pub nsock : ℕ

-- fullpath, pathlen and the counters, with the calls of myfunc so far.
pub record State : Type 0 where
  pub fullpath : List ℕ
  pub pathlen : ℕ
  pub counts : Counts
  pub reports : List (List ℕ × Report)

-- A return, a write outside the buffer, or the exit where realloc fails.
pub data Result : Type 0 where
  done : (ret : Status) → State → Result
  overflow : Result
  out_of_memory : Result

abbrev pub and_then : Result → (Status → State → Result) → Result
and_then (done ret s) f = f ret s
and_then overflow f = overflow
and_then out_of_memory f = out_of_memory

-- The inner switch of myfunc.
pub count_kind : Kind → Counts → Counts
count_kind regular c = record c { nreg = c.nreg + 1 }
count_kind block_special c = record c { nblk = c.nblk + 1 }
count_kind char_special c = record c { nchr = c.nchr + 1 }
count_kind fifo c = record c { nfifo = c.nfifo + 1 }
count_kind symlink c = record c { nslink = c.nslink + 1 }
count_kind socket c = record c { nsock = c.nsock + 1 }

-- The outer switch, whose first case falls through to the second.
pub count_report : Report → Counts → Counts
unfolding count_kind
count_report (file k) c = let c' = count_kind k c in record c' { ndir = c'.ndir + 1 }
count_report directory c = record c { ndir = c.ndir + 1 }
count_report read_error c = c
count_report stat_error c = c

pub myfunc : Report → State → Result
unfolding count_report
myfunc report s = done (nonneg 0) (record s {
  counts = count_report report s.counts;
  reports = s.reports ++ ((s.fullpath, report) ∷ []);
})

abbrev pub name_max : ℕ
name_max = 255

-- '/'
abbrev pub slash : ℕ
slash = 47

-- The strcmp with "." and "..".
pub is_dot : List ℕ → Bool
is_dot name = equal name (46 ∷ []) || equal name (46 ∷ 46 ∷ [])

-- What follows where a return value is 0; any other is passed on.
abbrev pub if_zero : (State → Result) → Status → State → Result
if_zero k (nonneg zero) s = k s
if_zero k (nonneg (suc n)) s = done (nonneg (suc n)) s
if_zero k minus_one s = done minus_one s

-- fullpath[n++] = '/'; fullpath[n] = 0
pub add_slash : State → Result
add_slash s =
    if ltb (length s.fullpath + 1) s.pathlen
    then done (nonneg 0) (record s { fullpath = s.fullpath ++ (slash ∷ []) })
    else overflow

-- strcpy(&fullpath[n], dirp->d_name)
pub put_name : ℕ → List ℕ → State → Result
put_name n name s =
    if ltb (n + length name) s.pathlen
    then done (nonneg 0) (record s { fullpath = take n s.fullpath ++ name })
    else overflow

-- From the end of the loop: fullpath[n - 1] = 0, closedir, and the return.
pub close_folder : Bool → ℕ → Status → State → Result
close_folder true n ret s = done (nonneg 0) (record s { fullpath = take (n - 1) s.fullpath })
close_folder false n ret s = done minus_one (record s { fullpath = take (n - 1) s.fullpath })

-- What follows opendir; `loop` is the loop over the entries.
pub read_folder : Bool → Bool → (ℕ → State → Result) → State → Result
unfolding myfunc close_folder
read_folder false closes loop s = myfunc read_error s
read_folder true closes loop s =
    and_then (loop (length s.fullpath) s) (close_folder closes (length s.fullpath))

-- The state in which myftw calls dopath.
abbrev pub start : List ℕ → ℕ → State
start pathname size = record {
  fullpath = pathname;
  pathlen = size;
  counts = record { nreg = 0; ndir = 0; nblk = 0; nchr = 0; nfifo = 0; nslink = 0; nsock = 0 };
  reports = [];
}

module _ (realloc : ℕ → Bool) where
  pub grow : State → Result
  grow s =
      if ltb s.pathlen (length s.fullpath + name_max + 2)
      then (if realloc (s.pathlen * 2)
          then done (nonneg 0) (record s { pathlen = s.pathlen * 2 })
          else out_of_memory)
      else done (nonneg 0) s

  -- A directory after myfunc has returned 0 for it.
  -- A directory's path gets its slash, in a buffer with room for a name.
  pub make_room : State → Result
  unfolding grow add_slash
  make_room s = and_then (grow s) (λ _ s₁. add_slash s₁)

  -- A directory after myfunc has returned 0 for it.
  pub walk_folder : Bool → Bool → (ℕ → State → Result) → State → Result
  unfolding make_room read_folder
  walk_folder opens closes loop s =
      and_then (make_room s) (λ _ s₁. read_folder opens closes loop s₁)

  mutual
    unfolding myfunc walk_folder put_name is_dot

    pub dopath : Node → State → Result
    dopath unstatable s = myfunc stat_error s
    dopath (leaf kind) s = myfunc (file kind) s
    dopath (folder opens closes entries) s =
        and_then (myfunc directory s) (if_zero (walk_folder opens closes (walk_entries entries)))

    -- The loop over the entries from here on, with the value of n.
    pub walk_entries : Entries → ℕ → State → Result
    walk_entries no_more n s = done (nonneg 0) s
    walk_entries (entry name node rest) n s =
        if is_dot name
        then walk_entries rest n s
        else and_then (put_name n name s)
            (λ _ s₁. and_then (dopath node s₁) (if_zero (walk_entries rest n)))

  -- myftw, with the size that path_alloc answers.
  pub myftw : ℕ → List ℕ → Node → Result
  unfolding dopath
  myftw size pathname node =
      let pathlen = length pathname * 2 in
      if leb size (length pathname)
      then (if realloc pathlen then dopath node (start pathname pathlen) else out_of_memory)
      else dopath node (start pathname size)
