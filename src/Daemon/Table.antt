-- ===== src/Daemon/Table.antt =====
-- The descriptor table of a process that starts with the descriptors `initial`, read off its
-- calls; `close` frees a number altogether.
use myapue.Base.{
  ℕ, zero, suc, ◌+◌, ◌≤◌, ◌<◌, ◌==◌, if◌then◌else◌, ◌||◌, Bool, false, ◌≡◌, ◌∙◌, refl, arith,
}
use Prim.Native.String.{String}
use myapue.Posix.Ledger.{failures}
use myapue.Base.{subst, List, [], ◌∷◌, length, All, Bool-cases, inl, inr}
use myapue.Posix.{Call, Answer, Trace, Os, failed, value, returns}
use myapue.Daemon.{close_from}

abbrev pub erase_fd : ℕ → List ℕ → List ℕ
erase_fd fd [] = []
erase_fd fd (x ∷ xs) = if x == fd then erase_fd fd xs else x ∷ erase_fd fd xs

abbrev pub has_fd : ℕ → List ℕ → Bool
has_fd fd [] = false
has_fd fd (x ∷ xs) = x == fd || has_fd fd xs

-- The lowest number that is not in a list; it is at most the list's length.
abbrev pub lowest_from : ℕ → ℕ → List ℕ → ℕ
lowest_from zero i fds = i
lowest_from (suc fuel) i fds =
    let next = lowest_from fuel (i + 1) fds in if has_fd i fds then next else i

abbrev pub lowest : List ℕ → ℕ
lowest fds = lowest_from (length fds) 0 fds

abbrev pub table : List ℕ → Trace → List ℕ
table initial [] = initial
table initial ((Call.open_file _, Answer.ok fd _) ∷ t) = fd ∷ table initial t
table initial ((Call.dup _, Answer.ok fd _) ∷ t) = fd ∷ table initial t
table initial ((Call.close fd, a) ∷ t) = erase_fd fd (table initial t)
table initial ((c, a) ∷ t) = table initial t

-- What POSIX says of open and dup: they return the lowest number that is free.
pub record LowestFree (initial : List ℕ) (os : Os) : Type 0 where
  pub opens_lowest :
      (t : Trace) (name : String)
      → failed (os t (Call.open_file name)) ≡ false
      → value (os t (Call.open_file name)) ≡ lowest (table initial t)
  pub dups_lowest :
      (t : Trace) (fd : ℕ)
      → failed (os t (Call.dup fd)) ≡ false
      → value (os t (Call.dup fd)) ≡ lowest (table initial t)

abbrev pub IsWithin : ℕ → ℕ → List ℕ → Type 0
IsWithin i n = All (λ fd. (i ≤ fd) × (fd < n))

erase_fd-IsWithin :
    (i n : ℕ) (fds : List ℕ) → IsWithin i n fds → IsWithin (i + 1) n (erase_fd i fds)
erase_fd-IsWithin i n [] h = tt
erase_fd-IsWithin i n (x ∷ xs) h = elim (Bool-cases (x == i)) [
  | inl gone ↦ rw gone (erase_fd-IsWithin i n xs h.1)
  | inr kept ↦ rw kept ((ground arith, h.0.1), erase_fd-IsWithin i n xs h.1)
]

nil_of_IsWithin : (i : ℕ) (fds : List ℕ) → IsWithin i i fds → fds ≡ []
nil_of_IsWithin i [] h = refl
nil_of_IsWithin i (x ∷ xs) h = absurd (omega arith)

failures-close : (fd : ℕ) (a : Answer) (t : Trace) → failures ((Call.close fd, a) ∷ t) ≡ failures t
failures-close fd (Answer.ok _ _) t = refl
failures-close fd (Answer.fail _) t = refl

module _ (initial : List ℕ) (t : Trace) where
  pub table-open_file :
      (name : String) (a : Answer)
      → failed a ≡ false
      → table initial ((Call.open_file name, a) ∷ t) ≡ value a ∷ table initial t
  table-open_file name (Answer.ok _ _) h = refl
  table-open_file name (Answer.fail _) h = cc

  pub table-dup :
      (fd : ℕ) (a : Answer)
      → failed a ≡ false
      → table initial ((Call.dup fd, a) ∷ t) ≡ value a ∷ table initial t
  table-dup fd (Answer.ok _ _) h = refl
  table-dup fd (Answer.fail _) h = cc

module _ (os : Os) (initial : List ℕ) where
  -- Closing the numbers from `i` up to `i + left` empties a table that holds no others.
  pub close_from-table :
      (left i n : ℕ) (t : Trace)
      → i + left ≡ n
      → IsWithin i n (table initial t)
      → ((close_from os left i t).0 ≡ returns tt)
        × (table initial (close_from os left i t).1 ≡ [])
        × (failures (close_from os left i t).1 ≡ failures t)
  unfolding close_from
  close_from-table zero i n t e h =
      let same : n ≡ i = omega arith in
      (
        refl,
        nil_of_IsWithin i (table initial t) (subst (λ m. IsWithin i m (table initial t)) same h),
        refl,
      )
  close_from-table (suc left) i n t e h =
      let rest =
        close_from-table left (i + 1) n ((Call.close i, os t (Call.close i)) ∷ t) (omega arith)
          (erase_fd-IsWithin i n (table initial t) h) in
      (rest.0, rest.1, rest.2 ∙ failures-close i (os t (Call.close i)) t)
