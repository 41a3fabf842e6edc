-- ===== src/FileTree/Visits.antt =====
-- Which calls of myfunc a walk of a tree makes, in their order, without a buffer.
use myapue.Base.{ℕ, if◌then◌else◌, true, false, List, [], ◌∷◌, ◌++◌, length, ◌≤◌}
use myapue.Posix.{Status, nonneg, minus_one}
use myapue.FileTree.{Node, unstatable, leaf, folder, Entries, no_more, entry}
use myapue.FileTree.{Report, file, directory, read_error, stat_error, slash, name_max, is_dot}

-- What dopath returns: -1 where closedir fails on the node itself.
abbrev pub returned : Node → Status
returned (folder true false entries) = minus_one
returned _ = nonneg 0

abbrev pub unless_failed : Status → List (List ℕ × Report) → List (List ℕ × Report)
unless_failed (nonneg n) later = later
unless_failed minus_one later = []

-- The calls for a node at a path. An entry on which closedir fails hides the entries after it.
abbrev mutual
  pub visits : List ℕ → Node → List (List ℕ × Report)
  visits path unstatable = (path, stat_error) ∷ []
  visits path (leaf kind) = (path, file kind) ∷ []
  visits path (folder false closes entries) =
      (path, directory) ∷ (path ++ (slash ∷ []), read_error) ∷ []
  visits path (folder true closes entries) =
      (path, directory) ∷ visits_in (path ++ (slash ∷ [])) entries

  pub visits_in : List ℕ → Entries → List (List ℕ × Report)
  visits_in path no_more = []
  visits_in path (entry name node rest) =
      let later = visits_in path rest in
      if is_dot name
      then later
      else visits (path ++ name) node ++ unless_failed (returned node) later

-- Every name is one that readdir may answer.
abbrev mutual
  pub IsNamed : Node → Type 0
  IsNamed unstatable = Unit
  IsNamed (leaf kind) = Unit
  IsNamed (folder opens closes entries) = AreNamed entries

  pub AreNamed : Entries → Type 0
  AreNamed no_more = Unit
  AreNamed (entry name node rest) = (length name ≤ name_max) × IsNamed node × AreNamed rest
