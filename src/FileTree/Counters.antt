-- ===== src/FileTree/Counters.antt =====
-- The counters of the walk as numbers of calls of myfunc, and what holds between the calls.
use myapue.Base.{ℕ, suc, ◌+◌, ◌≤◌, ◌<◌, if◌then◌else◌, Bool, true, false, Bool-cases}
use myapue.Base.{
  ◌≡◌, inl, inr, refl, ap, sym, ◌∙◌, arith, List, [], ◌∷◌, ◌++◌, length, take, length-append,
  take-take,
}
use myapue.Posix.{Status}
use myapue.FileTree.{Kind, regular, block_special, char_special, fifo, symlink, socket}
use myapue.FileTree.{
  Report, file, directory, read_error, stat_error, Counts, count_kind, count_report, name_max,
}
use myapue.FileTree.{State, Result, done, overflow, out_of_memory, and_then}

module _ {A : Type 0} where
  pub take-length : (xs : List A) → take (length xs) xs ≡ xs
  take-length [] = refl
  take-length (x ∷ xs) = ap (◌∷◌ x) (take-length xs)

  pub take-length_append : (xs ys : List A) → take (length xs) (xs ++ ys) ≡ xs
  take-length_append [] ys = refl
  take-length_append (x ∷ xs) ys = ap (◌∷◌ x) (take-length_append xs ys)

  -- A list that starts with xs ++ ys starts with xs.
  pub take-prefix :
      (xs ys zs : List A) → take (length (xs ++ ys)) zs ≡ xs ++ ys → take (length xs) zs ≡ xs
  take-prefix xs ys zs h =
      sym (take-take (length xs) (length (xs ++ ys)) zs (omega (arith, length-append xs ys)))
      ∙ ap (take (length xs)) h
      ∙ take-length_append xs ys

-- How often a call of a list has a property.
abbrev pub count_if : (Report → Bool) → List (List ℕ × Report) → ℕ
count_if p [] = 0
count_if p ((path, report) ∷ calls) =
    let rest = count_if p calls in if p report then suc rest else rest

abbrev pub of_kind : Kind → Report → Bool
of_kind regular (file regular) = true
of_kind block_special (file block_special) = true
of_kind char_special (file char_special) = true
of_kind fifo (file fifo) = true
of_kind symlink (file symlink) = true
of_kind socket (file socket) = true
of_kind _ _ = false

-- A directory, or any file that is not one.
abbrev pub is_found : Report → Bool
is_found (file kind) = true
is_found directory = true
is_found _ = false

-- The counters that calls of myfunc lead to, from 0.
abbrev pub tally : List (List ℕ × Report) → Counts
tally calls = record {
  nreg = count_if (of_kind regular) calls;
  ndir = count_if is_found calls;
  nblk = count_if (of_kind block_special) calls;
  nchr = count_if (of_kind char_special) calls;
  nfifo = count_if (of_kind fifo) calls;
  nslink = count_if (of_kind symlink) calls;
  nsock = count_if (of_kind socket) calls;
}

-- The path fits its buffer, which is large enough for the doubling, and the counters are right.
abbrev pub IsGood : State → Type 0
IsGood s =
    (length s.fullpath < s.pathlen) × (name_max + 2 ≤ s.pathlen) × (s.counts ≡ tally s.reports)

module _ (P Q : Result → Type 0) (f : Status → State → Result)
    (normal : (ret : Status) (s : State) → P (done ret s) → Q (f ret s))
    (never : P overflow → Q overflow) (full : P out_of_memory → Q out_of_memory) where
  pub and_then_post : (r : Result) → P r → Q (and_then r f)
  and_then_post (done ret s) h = normal ret s h
  and_then_post overflow h = never h
  and_then_post out_of_memory h = full h

count_if-append :
    (p : Report → Bool) (calls : List (List ℕ × Report)) (path : List ℕ) (r : Report)
    → count_if p (calls ++ ((path, r) ∷ []))
      ≡ (if p r then count_if p calls + 1 else count_if p calls)
count_if-append p [] path r = elim (Bool-cases (p r)) [
  | inl counted ↦ rw counted refl
  | inr other ↦ rw other refl
]
count_if-append p ((q, r') ∷ calls) path r =
    let ih = count_if-append p calls path r in
    elim (Bool-cases (p r')) [
      | inl counted ↦ rw counted (elim (Bool-cases (p r)) [
        | inl yes_too ↦ rw yes_too (omega (arith, rw yes_too at ih))
        | inr no_more_of_it ↦ rw no_more_of_it (ap suc (rw no_more_of_it at ih))
      ])
      | inr other ↦ rw other ih
    ]

-- One more call of myfunc counts as count_report says.
tally-append :
    (calls : List (List ℕ × Report)) (path : List ℕ) (r : Report)
    → count_report r (tally calls) ≡ tally (calls ++ ((path, r) ∷ []))
unfolding count_report count_kind
tally-append calls path (file regular) = simp count_if-append refl
tally-append calls path (file block_special) = simp count_if-append refl
tally-append calls path (file char_special) = simp count_if-append refl
tally-append calls path (file fifo) = simp count_if-append refl
tally-append calls path (file symlink) = simp count_if-append refl
tally-append calls path (file socket) = simp count_if-append refl
tally-append calls path directory = simp count_if-append refl
tally-append calls path read_error = simp count_if-append refl
tally-append calls path stat_error = simp count_if-append refl

pub myfunc-Good :
    (r : Report) (s : State)
    → IsGood s
    → let t = record s {
      counts = count_report r s.counts;
      reports = s.reports ++ ((s.fullpath, r) ∷ []);
    } in
      IsGood t
myfunc-Good r s h = (h.0, h.1, ap (count_report r) h.2 ∙ tally-append s.reports s.fullpath r)
