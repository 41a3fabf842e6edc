-- ===== src/FileTree/Program.antt =====
-- path_alloc and main of 04.filedir/07_ftw.c around the walk.
use myapue.Base.{
  ℕ, zero, suc, ◌+◌, ◌==◌, ltb, if◌then◌else◌, ◌&&◌, Bool, true, false, Bool-cases, ◌≡◌, ◌<◌, ◌≤◌,
  ◌⊎◌, inl, inr, refl, arith, List, [], ◌∷◌,
}
use myapue.Posix.{Status, nonneg, minus_one}
use myapue.FileTree.{Node, Counts, State, Result, done, overflow, out_of_memory, myftw, name_max}
use myapue.FileTree.Visits.{IsNamed}
use myapue.FileTree.Folder.{Refuses}
use myapue.FileTree.Walk.{Finds, myftw-Finds}

abbrev pub path_max_guess : ℕ
path_max_guess = 1024

-- pathmax, posix_version and xsi_version
pub record Statics : Type 0 where
  pub pathmax : ℕ
  pub posix_version : Status
  pub xsi_version : Status

-- What sysconf, pathconf and malloc answer, and whether pathconf has set errno.
pub record Limits : Type 0 where
  pub version : Status
  pub xopen_version : Status
  pub path_max : Status
  pub path_error : Bool
  pub malloc : ℕ → Bool

pub data Allocation : Type 0 where
  allocated : (size : ℕ) → Statics → Allocation
  failure : Allocation

-- A version that has not been asked for is 0.
abbrev pub or_ask : Status → Status → Status
or_ask (nonneg zero) answer = answer
or_ask known answer = known

abbrev pub is_below : Status → ℕ → Bool
is_below (nonneg n) bound = ltb n bound
is_below minus_one bound = true

-- The end of path_alloc, where pathmax is known.
unfoldable pub allocate : Limits → Statics → Allocation
allocate limits s =
    let size =
      if is_below s.posix_version 200112 && is_below s.xsi_version 4
      then s.pathmax + 1
      else s.pathmax in
    if limits.malloc size then allocated size s else failure

-- What pathconf answers makes pathmax.
pub ask_pathconf : Status → Limits → Statics → Allocation
unfolding allocate
ask_pathconf (nonneg n) limits s = allocate limits (record s { pathmax = n + 1 })
ask_pathconf minus_one limits s =
    if limits.path_error then failure else allocate limits (record s { pathmax = path_max_guess })

unfoldable pub ask_versions : Limits → Statics → Statics
ask_versions limits s = record s {
  posix_version = or_ask s.posix_version limits.version;
  xsi_version = or_ask s.xsi_version limits.xopen_version;
}

unfoldable pub path_alloc : Limits → Statics → Allocation
unfolding ask_pathconf ask_versions
path_alloc limits s =
    let s' = ask_versions limits s in
    if s.pathmax == 0 then ask_pathconf limits.path_max limits s' else allocate limits s'

-- The statics at the start, where PATH_MAX is defined as the number, or is not defined and 0
-- stands for it.
abbrev pub statics : ℕ → Statics
statics path_max = record { pathmax = path_max; posix_version = nonneg 0; xsi_version = nonneg 0 }

-- ntot, which leaves out nchr
pub total : Counts → ℕ
total c = let n = c.nreg + c.ndir + c.nblk + c.nfifo + c.nslink + c.nsock in if n == 0 then 1 else n

-- How the program ends: main returns, with ntot as what it divides by, or the process exits.
pub data Ending : Type 0 where
  usage : Ending
  finished : (ret : Status) → State → (ntot : ℕ) → Ending
  exits : Ending
  overruns : Ending

pub report : Result → Ending
unfolding total
report (done ret s) = finished ret s (total s.counts)
report overflow = overruns
report out_of_memory = exits

module _ (realloc : ℕ → Bool) where
  pub walk : List ℕ → Node → Allocation → Ending
  unfolding report
  walk pathname node (allocated size s) = report (myftw realloc size pathname node)
  walk pathname node failure = exits

  -- `node` is what the file system has at the path.
  pub main : Limits → ℕ → List (List ℕ) → Node → Ending
  unfolding path_alloc walk
  main limits path_max (program ∷ pathname ∷ []) node =
      walk pathname node (path_alloc limits (statics path_max))
  main limits path_max argv node = usage

-- A path buffer of the size that the limits give has room for a name and its slash.
abbrev pub IsRoomy : Status → Type 0
IsRoomy (nonneg n) = name_max + 1 ≤ n
IsRoomy minus_one = Unit

abbrev pub HasRoom : Limits → ℕ → Type 0
HasRoom limits zero = IsRoomy limits.path_max
HasRoom limits (suc n) = name_max + 2 ≤ suc n

-- A call that ends the process has failed.
abbrev pub HasFailed : (ℕ → Bool) → Limits → Type 0
HasFailed realloc limits =
    (limits.path_error ≡ true) ⊎ (((n : ℕ) × (limits.malloc n ≡ false)) ⊎ Refuses realloc)

-- How main may end on a tree at a path.
abbrev pub Ends : (ℕ → Bool) → Limits → List ℕ → Node → Ending → Type 0
Ends realloc limits path node usage = ⊥
Ends realloc limits path node (finished ret s ntot) =
    Finds realloc path node (done ret s) × (0 < ntot) × (total s.counts ≡ ntot)
Ends realloc limits path node exits = HasFailed realloc limits
Ends realloc limits path node overruns = ⊥

-- The sizes that path_alloc answers.
abbrev pub IsLarge : Limits → Allocation → Type 0
IsLarge limits (allocated size s) = name_max + 2 ≤ size
IsLarge limits failure = (limits.path_error ≡ true) ⊎ ((n : ℕ) × (limits.malloc n ≡ false))

allocate-IsLarge :
    (limits : Limits) (s : Statics) → name_max + 2 ≤ s.pathmax → IsLarge limits (allocate limits s)
unfolding allocate
allocate-IsLarge limits s large =
    elim (Bool-cases (is_below s.posix_version 200112 && is_below s.xsi_version 4)) [
      | inl old ↦ rw old (given (s.pathmax + 1) (omega (arith, large)))
      | inr new ↦ rw new (given s.pathmax large)
    ]
  where
    given :
        (size : ℕ)
        → name_max + 2 ≤ size
        → IsLarge limits (if limits.malloc size then allocated size s else failure)
    given size h = elim (Bool-cases (limits.malloc size)) [
      | inl granted ↦ rw granted h
      | inr refused ↦ rw refused (inr (size, refused))
    ]

ask_pathconf-IsLarge :
    (limits : Limits) (s : Statics) (answer : Status)
    → IsRoomy answer
    → IsLarge limits (ask_pathconf answer limits s)
unfolding ask_pathconf
ask_pathconf-IsLarge limits s (nonneg n) room =
    allocate-IsLarge limits (record s { pathmax = n + 1 }) (omega (arith, room))
ask_pathconf-IsLarge limits s minus_one room = elim (Bool-cases limits.path_error) [
  | inl broken ↦ rw broken (inl refl)
  | inr fine ↦
      simp fine (allocate-IsLarge limits (record s { pathmax = path_max_guess }) (omega arith))
]

path_alloc-IsLarge :
    (limits : Limits) (path_max : ℕ)
    → HasRoom limits path_max
    → IsLarge limits (path_alloc limits (statics path_max))
unfolding path_alloc ask_versions
path_alloc-IsLarge limits zero room =
    ask_pathconf-IsLarge limits (ask_versions limits (statics 0)) limits.path_max room
path_alloc-IsLarge limits (suc n) room =
    rw known (allocate-IsLarge limits (ask_versions limits (statics (suc n))) room)
  where
    known : (suc n == 0) ≡ false
    known = ground arith

total-pos : (c : Counts) → 0 < total c
unfolding total
total-pos c = ground arith

report-Ends :
    (realloc : ℕ → Bool) (limits : Limits) (path : List ℕ) (node : Node) (r : Result)
    → Finds realloc path node r
    → Ends realloc limits path node (report r)
unfolding report
report-Ends realloc limits path node (done ret s) h = (h, total-pos s.counts, refl)
report-Ends realloc limits path node overflow h = h
report-Ends realloc limits path node out_of_memory h = inr (inr h)

walk-Ends :
    (realloc : ℕ → Bool) (limits : Limits) (path : List ℕ) (node : Node) (a : Allocation)
    → IsNamed node
    → IsLarge limits a
    → Ends realloc limits path node (walk realloc path node a)
unfolding walk
walk-Ends realloc limits path node (allocated size s) named large =
    report-Ends realloc limits path node _ (myftw-Finds realloc size path node named large)
walk-Ends realloc limits path node failure named (inl h) = inl h
walk-Ends realloc limits path node failure named (inr h) = inr (inl h)

-- main on a path, where PATH_MAX is at least 257, or is not defined and pathconf answers at least
-- 256 or has no limit, and the tree's names have at most NAME_MAX characters. It does not run past
-- its path buffer, from path_alloc's size on. It exits only where pathconf fails or a malloc or
-- realloc is refused. Else it returns what dopath returns, -1 if closedir fails on the node itself
-- and 0 if not; myfunc has been called on the files of the tree in order, each with its path, less
-- the entries behind one on which closedir fails; the counters count these calls, one for the kind
-- of each file that is not a directory, and ndir for each file and each directory; and ntot, by
-- which the percentages are divided, is positive.
pub main-Ends :
    (realloc : ℕ → Bool) (limits : Limits) (path_max : ℕ) (program path : List ℕ) (node : Node)
    → IsNamed node
    → HasRoom limits path_max
    → Ends realloc limits path node (main realloc limits path_max (program ∷ path ∷ []) node)
unfolding main
main-Ends realloc limits path_max program path node named room =
    walk-Ends realloc limits path node _ named (path_alloc-IsLarge limits path_max room)
