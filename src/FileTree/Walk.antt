-- ===== src/FileTree/Walk.antt =====
-- The walk of a whole tree: its path buffer, the calls of myfunc and the counters.
use myapue.Base.{ℕ, ◌+◌, ◌*◌, ◌≤◌, ◌<◌, ltb, leb, Bool, true, false, Bool-cases}
use myapue.Base.{
  ◌≡◌, ◌⊎◌, inl, inr, refl, ap, sym, ◌∙◌, arith, List, ◌++◌, length, take, append-nil, append_assoc,
  length-append,
}
use mathlib.Core.Path.{ap₂}
use myapue.Posix.{Status, nonneg, minus_one}
use myapue.FileTree.{Node, unstatable, leaf, folder, Entries, no_more, entry}
use myapue.FileTree.{file, stat_error, name_max, is_dot}
use myapue.FileTree.{
  State, Result, done, overflow, out_of_memory, and_then, if_zero, put_name, walk_folder, dopath,
  walk_entries, myftw, start,
}
use myapue.FileTree.Visits.{returned, visits, visits_in, IsNamed, AreNamed}
use myapue.FileTree.Counters.{take-length, take-prefix, and_then_post, myfunc-Good, tally, IsGood}
use myapue.FileTree.Folder.{Refuses, Walks, WalksIn, folder-Walks}

module _ (realloc : ℕ → Bool) where
  returned-cases : (node : Node) → (returned node ≡ nonneg 0) ⊎ (returned node ≡ minus_one)
  returned-cases unstatable = inl refl
  returned-cases (leaf kind) = inl refl
  returned-cases (folder true false entries) = inr refl
  returned-cases (folder true true entries) = inl refl
  returned-cases (folder false closes entries) = inl refl

  WalksIn-after :
      (path name : List ℕ) (node : Node) (rest : Entries) (u w : State) (r : Result)
      → is_dot name ≡ false
      → returned node ≡ nonneg 0
      → w.reports ≡ u.reports ++ visits (path ++ name) node
      → u.pathlen ≤ w.pathlen
      → WalksIn realloc path rest w r
      → WalksIn realloc path (entry name node rest) u r
  WalksIn-after path name node rest u w (done ret v) named zero_back calls le h = (
    h.0,
    h.1 ∙ ap (λ c. c ++ visits_in path rest) calls ∙ append_assoc u.reports _ _ ∙ listed,
    h.2,
    omega (arith, h.3),
  )
    where
      listed :
          u.reports ++ (visits (path ++ name) node ++ visits_in path rest)
          ≡ u.reports ++ visits_in path (entry name node rest)
      listed = rw named (rw zero_back refl)
  WalksIn-after path name node rest u w overflow named zero_back calls le h = h
  WalksIn-after path name node rest u w out_of_memory named zero_back calls le h = h

  WalksIn-dot :
      (path name : List ℕ) (node : Node) (rest : Entries) (s : State) (r : Result)
      → is_dot name ≡ true
      → WalksIn realloc path rest s r
      → WalksIn realloc path (entry name node rest) s r
  WalksIn-dot path name node rest s (done ret w) dot h = (h.0, rw dot h.1, h.2, h.3)
  WalksIn-dot path name node rest s overflow dot h = h
  WalksIn-dot path name node rest s out_of_memory dot h = h

  -- What follows the walk of an entry.
  next-WalksIn :
      (path name : List ℕ) (node : Node) (rest : Entries) (u s : State) (loop : State → Result)
      → is_dot name ≡ false
      → s.fullpath ≡ path ++ name
      → s.reports ≡ u.reports
      → length path + name_max < s.pathlen
      → u.pathlen ≤ s.pathlen
      → ((w : State)
          → take (length path) w.fullpath ≡ path
          → IsGood w
          → length path + name_max < w.pathlen
          → WalksIn realloc path rest w (loop w))
      → (ret : Status) (w : State) → Walks realloc node s (done ret w)
      → WalksIn realloc path (entry name node rest) u (if_zero loop ret w)
  next-WalksIn path name node rest u s loop named here calls room le ih ret w h =
      elim (returned-cases node) [
        | inl zero_back ↦ rw (h.0 ∙ zero_back) (
            WalksIn-after path name node rest u w (loop w) named zero_back reported
              (omega (arith, h.4)) (ih w start h.3 (omega (arith, h.4))))
        | inr broken ↦ rw (h.0 ∙ broken) (start, cut broken, h.3, omega (arith, h.4))
      ]
    where
      start : take (length path) w.fullpath ≡ path
      start = take-prefix path name w.fullpath (rw here at h.1)

      reported : w.reports ≡ u.reports ++ visits (path ++ name) node
      reported = h.2 ∙ ap₂ (λ c q. c ++ visits q node) calls here

      cut :
          returned node ≡ minus_one → w.reports ≡ u.reports ++ visits_in path (entry name node rest)
      cut broken =
          reported
          ∙ ap (◌++◌ u.reports)
              (rw named (rw broken (sym (append-nil (visits (path ++ name) node)))))

  -- An entry that is neither "." nor "..".
  entry-WalksIn :
      (path name : List ℕ) (node : Node) (rest : Entries) (s : State) (walk loop : State → Result)
      → is_dot name ≡ false
      → length name ≤ name_max
      → take (length path) s.fullpath ≡ path
      → IsGood s
      → length path + name_max < s.pathlen
      → ((u : State) → IsGood u → Walks realloc node u (walk u))
      → ((w : State)
          → take (length path) w.fullpath ≡ path
          → IsGood w
          → length path + name_max < w.pathlen
          → WalksIn realloc path rest w (loop w))
      → WalksIn realloc path
          (entry name node rest)
          s
          (and_then (put_name (length path) name s) (λ _ u. and_then (walk u) (if_zero loop)))
  unfolding put_name
  entry-WalksIn path name node rest s walk loop named short start good room inner later = rw fits (
      and_then_post (Walks realloc node u) (WalksIn realloc path (entry name node rest) s)
        (if_zero loop)
        (next-WalksIn path name node rest s u loop named here refl room (omega arith) later)
        (λ h. h) (λ h. h) (walk u) (inner u good'))
    where
      fits : ltb (length path + length name) s.pathlen ≡ true
      fits = ground arith

      u : State
      u = record s { fullpath = take (length path) s.fullpath ++ name }

      here : take (length path) s.fullpath ++ name ≡ path ++ name
      here = ap (λ q. q ++ name) start

      good' : IsGood u
      good' = (omega (arith, ap length here, length-append path name), good.1, good.2)

  mutual
    unfolding dopath walk_folder put_name

    dopath-Walks :
        (node : Node) (s : State)
        → IsNamed node
        → IsGood s
        → Walks realloc node s (dopath realloc node s)
    dopath-Walks unstatable s m h =
        (refl, take-length s.fullpath, refl, myfunc-Good stat_error s h, omega arith)
    dopath-Walks (leaf kind) s m h =
        (refl, take-length s.fullpath, refl, myfunc-Good (file kind) s h, omega arith)
    dopath-Walks (folder opens closes entries) s m h =
        folder-Walks realloc opens closes entries s (walk_entries realloc entries) h
          (λ path w start good room. walk_entries-WalksIn entries path w m start good room)

    walk_entries-WalksIn :
        (entries : Entries) (path : List ℕ) (s : State)
        → AreNamed entries
        → take (length path) s.fullpath ≡ path
        → IsGood s
        → length path + name_max < s.pathlen
        → WalksIn realloc path entries s (walk_entries realloc entries (length path) s)
    walk_entries-WalksIn no_more path s m start good room =
        (start, sym (append-nil s.reports), good, omega arith)
    walk_entries-WalksIn (entry name node rest) path s m start good room =
        elim (Bool-cases (is_dot name)) [
          | inl dot ↦
              let later = walk_entries-WalksIn rest path s m.2 start good room in
              rw dot (
                WalksIn-dot path name node rest s (walk_entries realloc rest (length path) s) dot
                  later)
          | inr named ↦ rw named (
              entry-WalksIn path name node rest s (dopath realloc node)
                (walk_entries realloc rest (length path)) named m.0 start good room
                (λ u g. dopath-Walks node u m.1 g)
                (λ w b g l. walk_entries-WalksIn rest path w m.2 b g l))
        ]

-- How myftw may end on a tree at a path.
abbrev pub Finds : (ℕ → Bool) → List ℕ → Node → Result → Type 0
Finds realloc path node (done ret s) =
    (ret ≡ returned node)
    × (s.reports ≡ visits path node)
    × (s.counts ≡ tally (visits path node))
    × (length s.fullpath < s.pathlen)
Finds realloc path node overflow = ⊥
Finds realloc path node out_of_memory = Refuses realloc

found :
    (realloc : ℕ → Bool) (node : Node) (path : List ℕ) (pathlen : ℕ) (r : Result)
    → Walks realloc node (start path pathlen) r
    → Finds realloc path node r
found realloc node path pathlen (done ret s) h = (h.0, h.2, h.3.2 ∙ ap tally h.2, h.3.0)
found realloc node path pathlen overflow h = h
found realloc node path pathlen out_of_memory h = h

-- For any tree whose names have at most NAME_MAX characters, and a first buffer of at least 257
-- bytes, myftw never writes outside the path buffer. It ends the process only where a realloc is
-- refused. Else it returns, -1 if closedir fails on the node itself and 0 if not; myfunc has been
-- called on the files of the tree in order, each with its path, less the entries behind one on which
-- closedir fails; and the counters count these calls: one for the kind of each file that is
-- not a directory, and ndir for each file and each directory.
pub myftw-Finds :
    (realloc : ℕ → Bool) (size : ℕ) (path : List ℕ) (node : Node)
    → IsNamed node
    → name_max + 2 ≤ size
    → Finds realloc path node (myftw realloc size path node)
unfolding myftw
myftw-Finds realloc size path node named large = elim (Bool-cases (leb size (length path))) [
  | inl long ↦ elim (Bool-cases (realloc (length path * 2))) [
    | inl given ↦ rw long (
        rw given (
          found realloc node path (length path * 2) _ (
            dopath-Walks realloc node (start path (length path * 2)) named
              (ground arith, omega (arith, over long), refl))))
    | inr denied ↦ rw long (rw denied (length path * 2, denied))
  ]
  | inr short ↦ rw short (
      found realloc node path size _
        (dopath-Walks realloc node (start path size) named (ground arith, large, refl)))
]
  where
    over : leb size (length path) ≡ true → size ≤ length path
    over h = ground arith
