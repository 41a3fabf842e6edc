-- ===== src/Threads/JobQueue/Relink.antt =====
-- The pointer changes of the operations, as changes of a chain of links.
use myapue.Base.{ℕ, ◌==◌, ◌≡◌, ◌∙◌, sym, ap, subst, refl, arith, true, false}
use myapue.Base.{List, [], ◌∷◌, ◌++◌, append-nil, append_assoc}
use myapue.Threads.Runs.{write}
use myapue.Threads.JobQueue.Distinct.{
  has, Distinct, has-append, Distinct-append_left, Distinct-append_right, Distinct-apart,
  Distinct-apart_right,
}
use myapue.Threads.JobQueue.Links.{
  Links, last, first, has-last, Links-split, Links-join, Links-frame, Links-retarget,
}
use myapue.Threads.JobQueue.Holds.{whole, ne_of_has, write_self, write_other}

pub has-whole_left :
    (p h : ℕ) (js : List ℕ) (t : ℕ) → has p (h ∷ js) ≡ true → has p (whole h js t) ≡ true
has-whole_left p h js t m = ground (arith, m, has-append p js (t ∷ []))

pub has-whole_right :
    (p h : ℕ) (js : List ℕ) (t : ℕ) → has p (js ++ (t ∷ [])) ≡ true → has p (whole h js t) ≡ true
has-whole_right p h js t m = ground (arith, m)

pub has-first : (js : List ℕ) (t : ℕ) → has (first js t) (js ++ (t ∷ [])) ≡ true
has-first [] t = ground arith
has-first (x ∷ xs) t = ground arith

-- Behind h.
pub Links-front :
    (next prev : ℕ → ℕ) (h t j : ℕ) (js : List ℕ)
    → Links next prev h js t
    → Distinct (whole h js t)
    → has j (whole h js t) ≡ false
    → Links
        (write (write next j (first js t)) h j)
        (write (write prev j h) (first js t) j)
        h
        (j ∷ js)
        t
Links-front next prev h t j [] l d out = ground (arith, l, d, out)
Links-front next prev h t j (x ∷ xs) l d out = (
  ground arith,
  ground (arith, out),
  (
    ground (arith, out),
    ground arith,
    Links-frame next prev _ _ x xs t
        (λ p m.
          let in_rest : has p (x ∷ (xs ++ (t ∷ []))) ≡ true =
            ground (arith, m, has-append p xs (t ∷ [])) in
          let ne_h = ne_of_has p h (x ∷ (xs ++ (t ∷ []))) in_rest d.0 in
          let ne_j = ne_of_has p j (x ∷ (xs ++ (t ∷ []))) in_rest (ground (arith, out)) in
          rw ne_h (rw ne_j refl))
        (λ p m.
          let ne_x = ne_of_has p x (xs ++ (t ∷ [])) m d.1.0 in
          let ne_j = ne_of_has p j (xs ++ (t ∷ [])) m (ground (arith, out)) in
          rw ne_x (rw ne_j refl))
        l.2,
  ),
)

-- The links before b are led to c, which the chain does not pass.
lead :
    (next prev : ℕ → ℕ) (h b c : ℕ) (ys : List ℕ)
    → Links next prev h ys b
    → Distinct (h ∷ ys)
    → has c ys ≡ false
    → Links (write next (last h ys) c) (write prev c (last h ys)) h ys c
lead next prev h b c ys l d out =
    Links-retarget next prev _ _ h ys b c d (λ p m e. rw e refl)
      (λ p m. let ne = ne_of_has p c ys m out in rw ne refl) (write_self next (last h ys) c)
      (write_self prev c (last h ys)) l

-- The parts of a chain around one of its jobs.
pub parts :
    (h t j : ℕ) (ys zs : List ℕ)
    → Distinct (whole h (ys ++ (j ∷ zs)) t)
    → Distinct ((h ∷ ys) ++ (j ∷ (zs ++ (t ∷ []))))
parts h t j ys zs d = subst Distinct (ap (◌∷◌ h) (append_assoc ys (j ∷ zs) (t ∷ []))) d

-- Without j.
pub Links-without :
    (next prev : ℕ → ℕ) (h t j : ℕ) (ys zs : List ℕ)
    → Links next prev h (ys ++ (j ∷ zs)) t
    → Distinct (whole h (ys ++ (j ∷ zs)) t)
    → Links
        (write next (last h ys) (first zs t))
        (write prev (first zs t) (last h ys))
        h
        (ys ++ zs)
        t
Links-without next prev h t j ys [] l d =
    let d' : Distinct ((h ∷ ys) ++ (j ∷ t ∷ [])) = parts h t j ys [] d in
    subst (λ xs. Links (write next (last h ys) t) (write prev t (last h ys)) h xs t)
      (sym (append-nil ys))
      (lead next prev h j t ys (Links-split next prev h ys j [] t l).0
        (Distinct-append_left (h ∷ ys) (j ∷ t ∷ []) d')
        (ground (arith, Distinct-apart_right t (h ∷ ys) (j ∷ t ∷ []) d')))
Links-without next prev h t j ys (z ∷ zs) l d =
    let (left, right) = Links-split next prev h ys j (z ∷ zs) t l in
    let b : List ℕ = j ∷ z ∷ (zs ++ (t ∷ [])) in
    let d' : Distinct ((h ∷ ys) ++ b) = parts h t j ys (z ∷ zs) d in
    let last_out : has (last h ys) b ≡ false =
      Distinct-apart (last h ys) (h ∷ ys) b d' (has-last h ys) in
    let d_b : Distinct b = Distinct-append_right (h ∷ ys) b d' in
    Links-join _ _ h ys z zs t
      (lead next prev h j z ys left (Distinct-append_left (h ∷ ys) b d')
        (ground (arith, Distinct-apart_right z (h ∷ ys) b d')))
      (Links-frame next prev _ _ z zs t
        (λ p m.
          let ne =
            ne_of_has p (last h ys) b (ground (arith, m, has-append p zs (t ∷ []))) last_out in
          rw ne refl)
        (λ p m. let ne = ne_of_has p z (zs ++ (t ∷ [])) m d_b.1.0 in rw ne refl) right.2)

-- Before t.
pub Links-back :
    (next prev : ℕ → ℕ) (h t j : ℕ) (js : List ℕ)
    → Links next prev h js t
    → Distinct (whole h js t)
    → has j (whole h js t) ≡ false
    → Links
        (write (write next j t) (last h js) j)
        (write (write prev j (last h js)) t j)
        h
        (js ++ (j ∷ []))
        t
Links-back next prev h t j js l d out =
    Links-join _ _ h js j [] t
      (Links-retarget next prev _ _ h js t j (Distinct-append_left (h ∷ js) (t ∷ []) d)
        (λ p m e. let ne = old p (has-whole_left p h js t m) in rw e (rw ne refl))
        (λ p m.
          let ne = old p (has-whole_left p h js t (ground (arith, m))) in
          let ne_t = ne_of_has p t js m t_out in rw ne_t (rw ne refl))
        (write_self (write next j t) (last h js) j)
        (write_other (write prev j (last h js)) t j j (ground (arith, t_ne_j))
          ∙ write_self prev j (last h js))
        l)
      (
        write_other (write next j t) (last h js) j j (ground (arith, last_ne_j))
            ∙ write_self next j t,
        write_self (write prev j (last h js)) t j,
      )
  where
    old : (p : ℕ) → has p (whole h js t) ≡ true → (p == j) ≡ false
    old p m = ne_of_has p j (whole h js t) m out

    t_out : has t js ≡ false
    t_out = ground (arith, Distinct-apart_right t (h ∷ js) (t ∷ []) d)

    t_ne_j : (t == j) ≡ false
    t_ne_j = old t (has-whole_right t h js t (ground (arith, has-append t js (t ∷ []))))

    last_ne_j : (last h js == j) ≡ false
    last_ne_j = old (last h js) (has-whole_left (last h js) h js t (has-last h js))
