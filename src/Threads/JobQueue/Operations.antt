-- ===== src/Threads/JobQueue/Operations.antt =====
-- The operations of the queue, against lists of jobs.
use myapue.Base.{ℕ, ◌==◌, ◌≡◌, sym, ap, subst, refl, arith, Bool-cases, inl, inr, true, false}
use myapue.Base.{List, [], ◌∷◌, ◌++◌, append_assoc}
use myapue.Threads.Runs.{Run, ok, write}
use myapue.Threads.JobQueue.{Queue, job_insert_front, job_append, job_remove}
use myapue.Threads.JobQueue.Distinct.{
  has, Distinct, has-append, Distinct-apart, has-middle, Distinct-middle, Distinct-without,
}
use myapue.Threads.JobQueue.Links.{Links, last, first, has-last, prev-last, next-first, Links-split}
use myapue.Threads.JobQueue.Holds.{Holds, whole, ne_of_has}
use myapue.Threads.JobQueue.Relink.{
  has-whole_left, has-whole_right, has-first, Links-front, Links-without, Links-back, parts,
}

-- The call returns and leaves the queue with the jobs js.
abbrev pub Leaves : List ℕ → Queue → Run Queue (Unit {0}) → Type 0
Leaves js s run =
    (s' : Queue) × (run ≡ ok tt s')
    × Holds js s'
    × (s'.head ≡ s.head)
    × (s'.tail ≡ s.tail)
    × (s'.live ≡ s.live)
    × (s'.job_tid ≡ s.job_tid)

module _ (s : Queue) (js : List ℕ) (q : Holds js s) (j : ℕ) (alive : s.live j ≡ true)
    (out : has j (whole s.head js s.tail) ≡ false) where
  abbrev n : ℕ
  n = first js s.tail

  next_head : s.next s.head ≡ n
  next_head = next-first s.next s.prev s.head js s.tail q.links

  head_lives : s.live s.head ≡ true
  head_lives = q.lives s.head (ground arith)

  n_lives : s.live n ≡ true
  n_lives = q.lives n (has-whole_right n s.head js s.tail (has-first js s.tail))

  head_ne_j : (s.head == j) ≡ false
  head_ne_j = ne_of_has s.head j (whole s.head js s.tail) (ground arith) out

  abbrev fronted : Queue
  fronted = record s {
    next = write (write s.next j n) s.head j;
    prev = write (write s.prev j s.head) n j;
    writer = false;
  }

  front_run : job_insert_front j s ≡ ok tt fronted
  unfolding job_insert_front
  front_run = rw (q.no_writer) (
      rw (q.no_reader) (
        rw alive (
          rw head_lives (
            rw next_head (
              rw alive
                (rw head_ne_j (rw head_lives (rw next_head (rw n_lives (rw head_lives refl))))))))))

  pub fronts : Leaves (j ∷ js) s (job_insert_front j s)
  fronts = (
    fronted,
    front_run,
    record {
      links = Links-front s.next s.prev s.head s.tail j js q.links q.distinct out;
      distinct = (ground (arith, q.distinct.0, out), (ground (arith, out), q.distinct.1));
      lives = λ p m. alive_in p m;
      no_reader = q.no_reader;
      no_writer = refl;
    },
    refl,
    refl,
    refl,
    refl,
  )
    where
      alive_in : (p : ℕ) → has p (whole s.head (j ∷ js) s.tail) ≡ true → s.live p ≡ true
      alive_in p m = elim (Bool-cases (j == p)) [
        | inl new ↦ let e : j ≡ p = ground arith in subst (λ a. s.live a ≡ true) e alive
        | inr other ↦ q.lives p (ground (arith, m))
      ]

  abbrev l : ℕ
  l = last s.head js

  prev_tail : s.prev s.tail ≡ l
  prev_tail = prev-last s.next s.prev s.head js s.tail q.links

  tail_in : has s.tail (whole s.head js s.tail) ≡ true
  tail_in =
      has-whole_right s.tail s.head js s.tail (ground (arith, has-append s.tail js (s.tail ∷ [])))

  tail_lives : s.live s.tail ≡ true
  tail_lives = q.lives s.tail tail_in

  l_lives : s.live l ≡ true
  l_lives = q.lives l (has-whole_left l s.head js s.tail (has-last s.head js))

  tail_ne_j : (s.tail == j) ≡ false
  tail_ne_j = ne_of_has s.tail j (whole s.head js s.tail) tail_in out

  abbrev backed : Queue
  backed = record s {
    next = write (write s.next j s.tail) l j;
    prev = write (write s.prev j l) s.tail j;
    writer = false;
  }

  back_run : job_append j s ≡ ok tt backed
  unfolding job_append
  back_run = rw (q.no_writer) (
      rw (q.no_reader) (
        rw alive (
          rw tail_lives (
            rw prev_tail (
              rw alive
                (rw tail_lives (rw tail_ne_j (rw prev_tail (rw l_lives (rw tail_lives refl))))))))))

  pub backs : Leaves (js ++ (j ∷ [])) s (job_append j s)
  backs = (
    backed,
    back_run,
    record {
      links = Links-back s.next s.prev s.head s.tail j js q.links q.distinct out;
      distinct =
          subst Distinct regroup (Distinct-middle j (s.head ∷ js) (s.tail ∷ []) q.distinct out);
      lives = λ a i. lives_in a i;
      no_reader = q.no_reader;
      no_writer = refl;
    },
    refl,
    refl,
    refl,
    refl,
  )
    where
      regroup : (s.head ∷ js) ++ (j ∷ s.tail ∷ []) ≡ whole s.head (js ++ (j ∷ [])) s.tail
      regroup = ap (◌∷◌ s.head) (sym (append_assoc js (j ∷ []) (s.tail ∷ [])))

      lives_in : (a : ℕ) → has a (whole s.head (js ++ (j ∷ [])) s.tail) ≡ true → s.live a ≡ true
      lives_in a i =
          let i' : has a ((s.head ∷ js) ++ (j ∷ s.tail ∷ [])) ≡ true =
            subst (λ xs. has a xs ≡ true) (sym regroup) i in
          elim (Bool-cases (j == a)) [
            | inl new ↦ let e : j ≡ a = ground arith in subst (λ b. s.live b ≡ true) e alive
            | inr other ↦ q.lives a (ground (arith, i', has-middle a j (s.head ∷ js) (s.tail ∷ [])))
          ]

module _ (s : Queue) (ys zs : List ℕ) (j : ℕ) (q : Holds (ys ++ (j ∷ zs)) s) where
  abbrev p : ℕ
  p = last s.head ys

  abbrev m : ℕ
  m = first zs s.tail

  split : Links s.next s.prev s.head ys j × Links s.next s.prev j zs s.tail
  split = Links-split s.next s.prev s.head ys j zs s.tail q.links

  prev_j : s.prev j ≡ p
  prev_j = prev-last s.next s.prev s.head ys j split.0

  next_j : s.next j ≡ m
  next_j = next-first s.next s.prev j zs s.tail split.1

  around : Distinct ((s.head ∷ ys) ++ (j ∷ (zs ++ (s.tail ∷ []))))
  around = parts s.head s.tail j ys zs q.distinct

  -- The chain with j is its two sides.
  in_sides : (a : ℕ) → has a ((s.head ∷ ys) ++ (j ∷ (zs ++ (s.tail ∷ [])))) ≡ true → s.live a ≡ true
  in_sides a h = q.lives a (
      subst (λ xs. has a xs ≡ true) (ap (◌∷◌ s.head) (sym (append_assoc ys (j ∷ zs) (s.tail ∷ []))))
        h)

  j_lives : s.live j ≡ true
  j_lives = in_sides j (ground (arith, has-append j ys (j ∷ (zs ++ (s.tail ∷ [])))))

  p_lives : s.live p ≡ true
  p_lives =
      in_sides p (ground (arith, has-append p ys (j ∷ (zs ++ (s.tail ∷ []))), has-last s.head ys))

  m_lives : s.live m ≡ true
  m_lives =
      in_sides m (ground (arith, has-append m ys (j ∷ (zs ++ (s.tail ∷ []))), has-first zs s.tail))

  p_ne_j : (j == p) ≡ false
  p_ne_j = ground (
    arith,
    Distinct-apart p (s.head ∷ ys) (j ∷ (zs ++ (s.tail ∷ []))) around (has-last s.head ys),
  )

  abbrev removed : Queue
  removed = record s { next = write s.next p m; prev = write s.prev m p; writer = false }

  remove_run : job_remove j s ≡ ok tt removed
  unfolding job_remove
  remove_run = rw (q.no_writer) (
      rw (q.no_reader) (
        rw j_lives (
          rw prev_j (
            rw j_lives (
              rw next_j (
                rw p_lives (
                  rw j_lives
                    (rw p_ne_j (rw next_j (rw j_lives (rw prev_j (rw m_lives refl))))))))))))

  pub removes : Leaves (ys ++ zs) s (job_remove j s)
  removes = (
    removed,
    remove_run,
    record {
      links = Links-without s.next s.prev s.head s.tail j ys zs q.links q.distinct;
      distinct =
          subst Distinct regroup (Distinct-without j (s.head ∷ ys) (zs ++ (s.tail ∷ [])) around);
      lives = λ a i.
          let i' : has a ((s.head ∷ ys) ++ (zs ++ (s.tail ∷ []))) ≡ true =
            subst (λ xs. has a xs ≡ true) (sym regroup) i in
          in_sides a (ground (arith, i', has-middle a j (s.head ∷ ys) (zs ++ (s.tail ∷ []))));
      no_reader = q.no_reader;
      no_writer = refl;
    },
    refl,
    refl,
    refl,
    refl,
  )
    where
      regroup : (s.head ∷ ys) ++ (zs ++ (s.tail ∷ [])) ≡ whole s.head (ys ++ zs) s.tail
      regroup = ap (◌∷◌ s.head) (sym (append_assoc ys zs (s.tail ∷ [])))
