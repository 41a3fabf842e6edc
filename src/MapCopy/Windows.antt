-- ===== src/MapCopy/Windows.antt =====
-- The windows that a copy maps.
use Prim.Native.String.{String}
use myapue.Base.{
  ◌⊎◌, inl, inr, Bool-cases, ℕ, zero, suc, ◌+◌, ◌*◌, ◌/◌, ◌%◌, ltb, ◌≡◌, ◌<◌, ◌≤◌, List, [], ◌∷◌,
  refl, arith,
}
use myapue.Posix.{Os, Prog, Trace, Call, Answer, Outcome, returns, value, Status, nonneg, minus_one}
use myapue.MapCopy.{max_mapsize, descriptor, size_to_map, map_window, copy_from, copy_file, main}

-- The latest calls copy the bytes before `w`, window after window from 0 on, each at the same
-- offset in both files, from the mapping of the one to that of the other, both of which are
-- unmapped after it.
abbrev pub IsCopied : ℕ → ℕ → ℕ → Trace → Type 0
IsCopied fd_in fd_out w
      ((Call.munmap d' n₅, _)
        ∷ (Call.munmap s' n₄, _)
        ∷ (Call.memcpy d s n, _)
        ∷ (Call.mmap f₂ o₂ n₂, Answer.ok dst _)
        ∷ (Call.mmap f₁ o₁ n₁, Answer.ok src _)
        ∷ t) =
    (f₁ ≡ fd_in)
    × (f₂ ≡ fd_out)
    × (o₁ ≡ o₂)
    × (s ≡ src)
    × (d ≡ dst)
    × (s' ≡ src)
    × (d' ≡ dst)
    × (n₁ ≡ n)
    × (n₂ ≡ n)
    × (n₄ ≡ n)
    × (n₅ ≡ n)
    × (0 < n)
    × (n ≤ max_mapsize)
    × (o₁ % max_mapsize ≡ 0)
    × (o₁ + n ≡ w)
    × IsCopied fd_in fd_out o₁ t
IsCopied fd_in fd_out w ((Call.ftruncate f n, _) ∷ t) = (f ≡ fd_out) × (w ≡ 0)
IsCopied fd_in fd_out w t = ⊥

abbrev pub FailsToMap : Trace → Type 0
FailsToMap ((Call.report _, _) ∷ (Call.mmap f o n, Answer.fail _) ∷ t) = Unit {0}
FailsToMap t = ⊥

abbrev pub Maps : ℕ → ℕ → ℕ → Outcome Status → Trace → Type 0
Maps fd_in fd_out size (returns (nonneg n)) t = (n ≡ 0) × IsCopied fd_in fd_out size t
Maps fd_in fd_out size (returns minus_one) t = FailsToMap t
Maps fd_in fd_out size _ t = ⊥

module _ (os : Os) (fd_in fd_out size : ℕ) where
  map_window-Maps :
      (w n : ℕ) (next : Prog Status) (t : Trace)
      → IsCopied fd_in fd_out w t
      → 0 < n
      → n ≤ max_mapsize
      → w % max_mapsize ≡ 0
      → ((t' : Trace)
          → IsCopied fd_in fd_out (w + n) t'
          → Maps fd_in fd_out size (next t').0 (next t').1)
      → Maps fd_in fd_out size
          (map_window os fd_in fd_out size w n next t).0
          (map_window os fd_in fd_out size w n next t).1
  unfolding map_window
  map_window-Maps w n next t copied pos small aligned goes_on =
      let c₁ : Call = Call.mmap fd_in w n in
      let t₁ : Trace = (c₁, os t c₁) ∷ t in
      let c₂ : Call = Call.mmap fd_out w n in
      let t₂ : Trace = (c₂, os t₁ c₂) ∷ t₁ in
      let src = value (os t c₁) in
      let dst = value (os t₁ c₂) in
      let c₃ : Call = Call.memcpy dst src n in
      let t₃ : Trace = (c₃, os t₂ c₃) ∷ t₂ in
      let c₄ : Call = Call.munmap src n in
      let t₄ : Trace = (c₄, os t₃ c₄) ∷ t₃ in
      let c₅ : Call = Call.munmap dst n in
      let t₅ : Trace = (c₅, os t₄ c₅) ∷ t₄ in
      ground (arith, copied, pos, small, aligned, goes_on t₅)

  copy_from-Maps :
      (fuel w : ℕ) (t : Trace)
      → IsCopied fd_in fd_out w t
      → w ≤ size
      → (w ≡ size) ⊎ (w % max_mapsize ≡ 0)
      → size + max_mapsize ≤ w + fuel * max_mapsize
      → Maps fd_in fd_out size
          (copy_from os fd_in fd_out size fuel w t).0
          (copy_from os fd_in fd_out size fuel w t).1
  unfolding copy_from
  copy_from-Maps zero w t copied le aligned enough = absurd (omega arith)
  copy_from-Maps (suc fuel) w t copied le aligned enough = elim (Bool-cases (ltb w size)) [
    | inl more ↦
        let n = size_to_map size w in
        rw more (
          map_window-Maps w n (copy_from os fd_in fd_out size fuel (w + n)) t copied
            (ground (arith, more)) (ground arith) (ground (arith, more, aligned))
            (λ t' h.
              copy_from-Maps fuel (w + n) t' h (ground (arith, more))
                (ground (arith, more, aligned)) (ground (arith, more, enough))))
    | inr done ↦ rw done (ground (arith, done, copied, le))
  ]

  copy_file-Maps :
      (t : Trace)
      → os t (Call.fstat fd_in) ≡ Answer.ok 0 (size ∷ [])
      → Maps fd_in fd_out size (copy_file os fd_in fd_out t).0 (copy_file os fd_in fd_out t).1
  unfolding copy_file
  copy_file-Maps t sized =
      let t₁ : Trace = (Call.fstat fd_in, Answer.ok 0 (size ∷ [])) ∷ t in
      let c : Call = Call.ftruncate fd_out size in
      rw sized (
        copy_from-Maps (size / max_mapsize + 2) 0 ((c, os t₁ c) ∷ t₁) (refl, refl) (omega arith)
          (inr refl) (omega arith))

-- How main may end, by what the two calls of open answer.
abbrev pub CopiesWindows : Os → ℕ → List String → Outcome Status → Trace → Type 0
CopiesWindows os size (program ∷ from ∷ to ∷ []) r t =
    let i = os [] (Call.open_file from) in
    Maps (descriptor i) (descriptor (os ((Call.open_file from, i) ∷ []) (Call.open_file to))) size r
      t
CopiesWindows os size argv r t = (r ≡ returns minus_one) × (t ≡ [])

-- Where the file's size is `size`, whatever the kernel answers to the other calls: with two
-- arguments, main ends with the fuel given; it returns 0 only after it has copied each byte below
-- the size once, window after window from 0 on, at the same offset in both files, each window at a
-- multiple of MAX_MAPSIZE, at most that long, and unmapped after it; it returns -1 only after a
-- failure of mmap. With another number of arguments it returns -1 and calls nothing.
pub main-CopiesWindows :
    (os : Os) (size : ℕ) (argv : List String)
    → ((t : Trace) (fd : ℕ) → os t (Call.fstat fd) ≡ Answer.ok 0 (size ∷ []))
    → CopiesWindows os size argv (main os argv []).0 (main os argv []).1
unfolding main
main-CopiesWindows os size [] sized = (refl, refl)
main-CopiesWindows os size (a ∷ []) sized = (refl, refl)
main-CopiesWindows os size (a ∷ b ∷ []) sized = (refl, refl)
main-CopiesWindows os size (a ∷ b ∷ c ∷ d ∷ rest) sized = (refl, refl)
main-CopiesWindows os size (program ∷ from ∷ to ∷ []) sized =
    copy_file-Maps os _ _ size _ (sized _ _)
