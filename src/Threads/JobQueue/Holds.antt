-- ===== src/Threads/JobQueue/Holds.antt =====
-- What it is for a queue to hold a list of jobs, and the two changes of its links.
use myapue.Base.{ℕ, ◌==◌, ◌≡◌, subst, refl, arith, Bool-cases, inl, inr, true, false}
use myapue.Base.{List, [], ◌∷◌, ◌++◌}
use myapue.Threads.Runs.{write}
use myapue.Threads.JobQueue.{Queue}
use myapue.Threads.JobQueue.Distinct.{has, Distinct}
use myapue.Threads.JobQueue.Links.{Links}

-- The addresses of a chain with its ends.
abbrev pub whole : ℕ → List ℕ → ℕ → List ℕ
whole h js t = h ∷ (js ++ (t ∷ []))

-- The queue holds, between its sentinels, the jobs at the addresses js, in this order, and nobody
-- holds its lock.
pub record Holds (js : List ℕ) (s : Queue) : Type 0 where
  pub links : Links s.next s.prev s.head js s.tail
  pub distinct : Distinct (whole s.head js s.tail)
  pub lives : (p : ℕ) → has p (whole s.head js s.tail) ≡ true → s.live p ≡ true
  pub no_reader : s.readers ≡ 0
  pub no_writer : s.writer ≡ false

pub write_self {ℓ} : {A : Type ℓ} (f : ℕ → A) (p : ℕ) (v : A) → write f p v p ≡ v
write_self f p v = let same : (p == p) ≡ true = ground arith in rw same refl

pub write_other {ℓ} :
    {A : Type ℓ} (f : ℕ → A) (p q : ℕ) (v : A) → (q == p) ≡ false → write f p v q ≡ f q
write_other f p q v other = rw other refl

-- Of two lists that share nothing, a member of one differs from a member of the other.
pub ne_of_has : (p q : ℕ) (xs : List ℕ) → has p xs ≡ true → has q xs ≡ false → (p == q) ≡ false
ne_of_has p q xs h k = elim (Bool-cases (p == q)) [
  | inl same ↦
      let e : p ≡ q = ground arith in
      let h' : has q xs ≡ true = subst (λ r. has r xs ≡ true) e h in cc
  | inr other ↦ other
]
