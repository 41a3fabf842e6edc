-- ===== src/FileTree/Examples.antt =====
-- The theorem about main at a concrete tree.
use myapue.Base.{ℕ, ◌≡◌, Bool, true, false, refl, arith, [], ◌∷◌}
use myapue.FileTree.{
  regular, symlink, Node, unstatable, leaf, folder, no_more, entry, name_max, file, directory,
  read_error, stat_error,
}
use myapue.Posix.{nonneg, minus_one}
use myapue.FileTree.Visits.{IsNamed, visits}
use myapue.FileTree.Program.{
  Limits, Ends, statics, ask_versions, path_alloc, allocate, allocated, main, main-Ends,
}

-- The directory d: ".", a regular file a, a directory b that cannot be read, and a directory c on
-- which closedir fails.
abbrev tree : Node
tree = folder true true (
    entry (46 ∷ []) (leaf regular) (
      entry (97 ∷ []) (leaf regular) (
        entry (98 ∷ []) (folder false true no_more) (
          entry (99 ∷ []) (folder true false (entry (120 ∷ []) (leaf symlink) no_more))
            (entry (100 ∷ []) unstatable no_more)))))

abbrev always : ℕ → Bool
always n = true

tree-IsNamed : IsNamed tree
tree-IsNamed = (
  omega arith,
  tt,
  (omega arith, tt, (omega arith, tt, (omega arith, (omega arith, tt, tt), (omega arith, tt, tt)))),
)

-- Neither the entry x is missed, nor is d/d, behind c, seen.
visits-tree :
    visits (100 ∷ []) tree
    ≡ (100 ∷ [], directory)
      ∷ (100 ∷ 47 ∷ 97 ∷ [], file regular)
      ∷ (100 ∷ 47 ∷ 98 ∷ [], directory)
      ∷ (100 ∷ 47 ∷ 98 ∷ 47 ∷ [], read_error)
      ∷ (100 ∷ 47 ∷ 99 ∷ [], directory)
      ∷ (100 ∷ 47 ∷ 99 ∷ 47 ∷ 120 ∷ [], file symlink)
      ∷ []
unfolding myapue.FileTree.is_dot
visits-tree = refl

-- No call fails, and neither version has been asked for.
abbrev usual : Limits
usual = record {
  version = nonneg 200809;
  xopen_version = nonneg 700;
  path_max = minus_one;
  path_error = false;
  malloc = always;
}

-- PATH_MAX is 4096: the buffer has that size.
path_alloc-usual :
    path_alloc usual (statics 4096)
    ≡ allocated 4096
        (record { pathmax = 4096; posix_version = nonneg 200809; xsi_version = nonneg 700 })
unfolding path_alloc allocate ask_versions
path_alloc-usual = refl

main-Ends_example :
    Ends always usual (100 ∷ []) tree (main always usual 4096 ((102 ∷ []) ∷ (100 ∷ []) ∷ []) tree)
main-Ends_example =
    main-Ends always usual 4096 (102 ∷ []) (100 ∷ []) tree tree-IsNamed (omega arith)
