-- ===== src/FileTree/Folder.antt =====
-- How the walk of a node may end, and the walk of a directory around the loop over its entries.
use myapue.Base.{ℕ, ◌+◌, ◌-◌, ◌*◌, ◌≤◌, ◌<◌, Bool, true, false, Bool-cases}
use myapue.Base.{
  ◌≡◌, inl, inr, refl, ap, subst, ◌∙◌, arith, List, [], ◌∷◌, ◌++◌, length, take, append_assoc,
  length-append,
}
use mathlib.Core.Path.{ap₂}
use myapue.Posix.{Status}
use myapue.FileTree.{Node, folder, Entries}
use myapue.FileTree.{directory, read_error, count_report, slash, name_max}
use myapue.FileTree.{
  State, Result, done, overflow, out_of_memory, and_then, if_zero, myfunc, grow, add_slash,
  close_folder, read_folder, make_room, walk_folder,
}
use myapue.FileTree.Visits.{returned, visits, visits_in}
use myapue.FileTree.Counters.{
  take-length, take-length_append, take-prefix, and_then_post, myfunc-Good, IsGood,
}

module _ (realloc : ℕ → Bool) where
  -- Some request for memory is refused.
  abbrev pub Refuses : Type 0
  Refuses = (n : ℕ) × (realloc n ≡ false)

  -- How dopath may end on a node.
  abbrev pub Walks : Node → State → Result → Type 0
  Walks node s (done ret s') =
      (ret ≡ returned node)
      × (take (length s.fullpath) s'.fullpath ≡ s.fullpath)
      × (s'.reports ≡ s.reports ++ visits s.fullpath node)
      × IsGood s'
      × (s.pathlen ≤ s'.pathlen)
  Walks node s overflow = ⊥
  Walks node s out_of_memory = Refuses

  -- How the loop over the entries of the directory `path` may end.
  abbrev pub WalksIn : List ℕ → Entries → State → Result → Type 0
  WalksIn path entries s (done ret s') =
      (take (length path) s'.fullpath ≡ path)
      × (s'.reports ≡ s.reports ++ visits_in path entries)
      × IsGood s'
      × (s.pathlen ≤ s'.pathlen)
  WalksIn path entries s overflow = ⊥
  WalksIn path entries s out_of_memory = Refuses

  -- What the part before opendir leaves: the path with its slash, in a buffer with room for a name.
  abbrev Enters : State → Result → Type 0
  Enters s (done ret s') =
      (s'.fullpath ≡ s.fullpath ++ (slash ∷ []))
      × (s'.reports ≡ s.reports)
      × IsGood s'
      × (s.pathlen ≤ s'.pathlen)
      × (length s'.fullpath + name_max < s'.pathlen)
  Enters s overflow = ⊥
  Enters s out_of_memory = Refuses

  make_room-Enters : (s : State) → IsGood s → Enters s (make_room realloc s)
  unfolding make_room grow add_slash
  make_room-Enters s h = elim (Bool-cases (realloc (s.pathlen * 2))) [
    | inl given ↦ ground (arith, given, h.0, h.1, h.2, length-append s.fullpath (slash ∷ []))
    | inr denied ↦
        let refused : Refuses = (s.pathlen * 2, denied) in
        ground (arith, denied, refused, h.0, h.1, h.2, length-append s.fullpath (slash ∷ []))
  ]

  -- The end of a directory, behind the loop over its entries.
  close_folder-Walks :
      (closes : Bool) (entries : Entries) (s u : State) (ret : Status) (w : State)
      → u.fullpath ≡ s.fullpath ++ (slash ∷ [])
      → u.reports ≡ s.reports ++ ((s.fullpath, directory) ∷ [])
      → IsGood u
      → s.pathlen ≤ u.pathlen
      → WalksIn (s.fullpath ++ (slash ∷ [])) entries u (done ret w)
      → Walks (folder true closes entries) s (close_folder closes (length u.fullpath) ret w)
  unfolding close_folder
  close_folder-Walks closes entries s u ret w path calls good le h =
      elim closes
        as (λ k. Walks (folder true k entries) s (close_folder k (length u.fullpath) ret w)) [
          | true ↦ (refl, start, reported, (short, h.2.1, h.2.2), omega (arith, h.3))
          | false ↦ (refl, start, reported, (short, h.2.1, h.2.2), omega (arith, h.3))
        ]
    where
      size : length u.fullpath - 1 ≡ length s.fullpath
      size = omega (arith, ap length path, length-append s.fullpath (slash ∷ []))

      back : take (length u.fullpath - 1) w.fullpath ≡ s.fullpath
      back = rw size (take-prefix s.fullpath (slash ∷ []) w.fullpath h.0)

      start : take (length s.fullpath) (take (length u.fullpath - 1) w.fullpath) ≡ s.fullpath
      start = ap (take (length s.fullpath)) back ∙ take-length s.fullpath

      reported :
          w.reports
          ≡ s.reports ++ ((s.fullpath, directory) ∷ visits_in (s.fullpath ++ (slash ∷ [])) entries)
      reported =
          h.1
          ∙ ap (λ c. c ++ visits_in (s.fullpath ++ (slash ∷ [])) entries) calls
          ∙ append_assoc s.reports _ _

      short : length (take (length u.fullpath - 1) w.fullpath) < w.pathlen
      short = omega (arith, ap length back, size, good.0, h.3)

  -- The part behind make_room, where the loop over the entries ends as it should.
  read_folder-Walks :
      (opens closes : Bool) (entries : Entries) (s u : State) (loop : ℕ → State → Result)
      → u.fullpath ≡ s.fullpath ++ (slash ∷ [])
      → u.reports ≡ s.reports ++ ((s.fullpath, directory) ∷ [])
      → IsGood u
      → s.pathlen ≤ u.pathlen
      → WalksIn (s.fullpath ++ (slash ∷ [])) entries u (loop (length u.fullpath) u)
      → Walks (folder opens closes entries) s (read_folder opens closes loop u)
  unfolding read_folder myfunc
  read_folder-Walks false closes entries s u loop path calls good le inside = (
    refl,
    ap (take (length s.fullpath)) path ∙ take-length_append s.fullpath (slash ∷ []),
    ap₂ (λ c q. c ++ ((q, read_error) ∷ [])) calls path ∙ append_assoc s.reports _ _,
    myfunc-Good read_error u good,
    le,
  )
  read_folder-Walks true closes entries s u loop path calls good le inside =
      and_then_post (WalksIn (s.fullpath ++ (slash ∷ [])) entries u)
        (Walks (folder true closes entries) s) (close_folder closes (length u.fullpath))
        (λ ret w h. close_folder-Walks closes entries s u ret w path calls good le h) (λ h. h)
        (λ h. h) (loop (length u.fullpath) u) inside

  -- A directory, where the loop over its entries ends as it should.
  pub folder-Walks :
      (opens closes : Bool) (entries : Entries) (s : State) (loop : ℕ → State → Result)
      → IsGood s
      → ((path : List ℕ) (w : State)
          → take (length path) w.fullpath ≡ path
          → IsGood w
          → length path + name_max < w.pathlen
          → WalksIn path entries w (loop (length path) w))
      → Walks
          (folder opens closes entries)
          s
          (and_then (myfunc directory s) (if_zero (walk_folder realloc opens closes loop)))
  unfolding walk_folder myfunc
  folder-Walks opens closes entries s loop good inside =
      and_then_post (Enters s₀) (Walks (folder opens closes entries) s)
        (λ _ u. read_folder opens closes loop u) enter (λ h. h) (λ h. h) (make_room realloc s₀)
        (make_room-Enters s₀ (myfunc-Good directory s good))
    where
      s₀ : State
      s₀ = record s {
        counts = count_report directory s.counts;
        reports = s.reports ++ ((s.fullpath, directory) ∷ []);
      }

      enter :
          (ret : Status) (u : State)
          → Enters s₀ (done ret u)
          → Walks (folder opens closes entries) s (read_folder opens closes loop u)
      enter ret u h = read_folder-Walks opens closes entries s u loop h.0 h.1 h.2 h.3 (
          subst (λ q. WalksIn q entries u (loop (length u.fullpath) u)) h.0
            (inside u.fullpath u (take-length u.fullpath) h.2 h.4))
