-- ===== src/MapCopy.antt =====
-- 14.advio/07_mmap_io.c: a file is copied through windows that are mapped one after another.
pub mod Windows
mod Examples
use Prim.Native.String.{String}
use myapue.Base.{ℕ, zero, suc, ◌+◌, ◌-◌, ◌*◌, ◌/◌, ◌^◌, ltb, if◌then◌else◌, List, [], ◌∷◌, get_or}
use myapue.Posix.{
  Os, Prog, Status, nonneg, minus_one, pure, ◌>>=◌, ◌>>◌, call, print, failed, fault, spins,
  returns,
}
use myapue.Posix.{value, out_of, Call, Answer}

abbrev pub max_mapsize : ℕ
max_mapsize = 1048576

-- What open returns, as the next calls take it: -1 is the greatest pattern of an int.
abbrev pub descriptor : Answer → ℕ
descriptor (Answer.ok fd out) = fd
descriptor (Answer.fail e) = 2 ^ 32 - 1

abbrev pub size_to_map : ℕ → ℕ → ℕ
size_to_map size size_written =
    if ltb max_mapsize (size - size_written) then max_mapsize else size - size_written

module _ (os : Os) (fd_in fd_out size : ℕ) where
  -- One window, and then what follows.
  pub map_window : ℕ → ℕ → Prog Status → Prog Status
  map_window size_written n next = do
    src ← call os (Call.mmap fd_in size_written n)
    if failed src then (do print os "mmap1 failed"; pure minus_one) else (do
      dst ← call os (Call.mmap fd_out size_written n)
      if failed dst then (do print os "mmap2 failed"; pure minus_one) else (do
        call os (Call.memcpy (value dst) (value src) n)
        call os (Call.munmap (value src) n)
        call os (Call.munmap (value dst) n)
        next))

  -- The loop, with fuel.
  pub copy_from : ℕ → ℕ → Prog Status
  unfolding map_window
  copy_from zero size_written t = (spins, t)
  copy_from (suc fuel) size_written t =
      let n = size_to_map size size_written in
      let next = copy_from fuel (size_written + n) in
      if ltb size_written size then map_window size_written n next t else (returns (nonneg 0), t)

module _ (os : Os) where
  -- One round for each full window, one for the rest, and the last test. The size of a file whose
  -- fstat fails is undefined.
  pub copy_file : ℕ → ℕ → Prog Status
  unfolding copy_from
  copy_file fd_in fd_out = do
    s ← call os (Call.fstat fd_in)
    if failed s then fault else (do
      let size = get_or (out_of s) 0 0
      call os (Call.ftruncate fd_out size)
      copy_from os fd_in fd_out size (size / max_mapsize + 2) 0)

  pub main : List String → Prog Status
  unfolding copy_file
  main (program ∷ from ∷ to ∷ []) = do
    i ← call os (Call.open_file from)
    o ← call os (Call.open_file to)
    copy_file (descriptor i) (descriptor o)
  main argv = pure minus_one
