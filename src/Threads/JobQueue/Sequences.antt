-- ===== src/Threads/JobQueue/Sequences.antt =====
-- Any sequence of insertions and removals, against lists of jobs.
use myapue.Base.{ℕ, ◌≡◌, ◌∙◌, refl, subst, sym, Bool, true, false}
use myapue.Base.{List, [], ◌∷◌, ◌++◌}
use myapue.Threads.Runs.{◌>>◌, pure}
use myapue.Threads.JobQueue.{Queue, M, job_insert_front, job_append, job_remove}
use myapue.Threads.JobQueue.Distinct.{has}
use myapue.Threads.JobQueue.Holds.{Holds, whole}
use myapue.Threads.JobQueue.Operations.{Leaves, fronts, backs, removes}

pub data Operation : Type 0 where
  insert_front : (j : ℕ) → Operation
  append : (j : ℕ) → Operation
  remove : (j : ℕ) → Operation

abbrev pub perform : Operation → M (Unit {0})
perform (insert_front j) = job_insert_front j
perform (append j) = job_append j
perform (remove j) = job_remove j

abbrev pub perform_all : List Operation → M (Unit {0})
perform_all [] = pure tt
perform_all (c ∷ cs) = do perform c; perform_all cs

-- What a call does to the list of jobs between the sentinels h and t: a job that is inserted lies in
-- memory and is not in the queue, and one that is removed is.
pub data Does (h t : ℕ) (live : ℕ → Bool) (js : List ℕ) : Operation → List ℕ → Type 0 where
  fronts_job :
      (j : ℕ)
      → live j ≡ true
      → has j (whole h js t) ≡ false
      → Does h t live js (insert_front j) (j ∷ js)
  appends_job :
      (j : ℕ)
      → live j ≡ true
      → has j (whole h js t) ≡ false
      → Does h t live js (append j) (js ++ (j ∷ []))
  removes_job :
      (ys : List ℕ) (j : ℕ) (zs : List ℕ)
      → js ≡ ys ++ (j ∷ zs)
      → Does h t live js (remove j) (ys ++ zs)

pub data DoesAll (h t : ℕ) (live : ℕ → Bool) : List ℕ → List Operation → List ℕ → Type 0 where
  nothing : {js : List ℕ} → DoesAll h t live js [] js
  next :
      {c : Operation} {js ks ls : List ℕ} {cs : List Operation}
      → Does h t live js c ks
      → DoesAll h t live ks cs ls
      → DoesAll h t live js (c ∷ cs) ls

perform-Leaves :
    (s : Queue) {js ks : List ℕ} {c : Operation}
    → Does s.head s.tail s.live js c ks
    → Holds js s
    → Leaves ks s (perform c s)
perform-Leaves s {js} (fronts_job j alive out) q = fronts s js q j alive out
perform-Leaves s {js} (appends_job j alive out) q = backs s js q j alive out
perform-Leaves s (removes_job ys j zs e) q = removes s ys zs j (subst (λ xs. Holds xs s) e q)

-- The queue refines lists: where a sequence of calls of job_insert_front, job_append and job_remove
-- takes the list js to ks, the code performs it on any queue that holds js, without a fault and
-- without waiting, and leaves one that holds ks, linked in both directions between the same
-- sentinels, with its lock free. On lists a job is put in front, or behind all others, or taken
-- out from where it stands.
pub perform_all-Leaves_lists :
    {h t : ℕ} {live : ℕ → Bool} {js ks : List ℕ} {cs : List Operation}
    → DoesAll h t live js cs ks
    → (s : Queue) → s.head ≡ h
    → s.tail ≡ t
    → s.live ≡ live
    → Holds js s
    → Leaves ks s (perform_all cs s)
perform_all-Leaves_lists nothing s e f g q = (s, refl, q, refl, refl, refl, refl)
perform_all-Leaves_lists {h} {t} {live} {js} (next {c = c} {ks = ks} d ds) s e f g q =
    let d' : Does s.head s.tail s.live js c ks =
      subst (λ x. Does x s.tail s.live js c ks) (sym e)
        (subst (λ x. Does h x s.live js c ks) (sym f)
          (subst (λ x. Does h t x js c ks) (sym g) d)) in
    let (s₁, ran₁, q₁, e₁, f₁, g₁, i₁) = perform-Leaves s d' q in
    let (s₂, ran₂, q₂, e₂, f₂, g₂, i₂) =
      perform_all-Leaves_lists ds s₁ (e₁ ∙ e) (f₁ ∙ f) (g₁ ∙ g) q₁ in
    (s₂, rw ran₁ ran₂, q₂, e₂ ∙ e₁, f₂ ∙ f₁, g₂ ∙ g₁, i₂ ∙ i₁)
