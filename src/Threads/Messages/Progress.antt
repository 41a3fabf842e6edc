-- ===== src/Threads/Messages/Progress.antt =====
-- The program never hangs before its work is done.
use myapue.Base.{
  ℕ, zero, suc, ◌<◌, ◌≤◌, ◌==◌, ◌≡◌, ◌⊎◌, refl, ap, ◌∙◌, arith, Bool, Bool-cases, inl, inr, true,
  false,
}
use myapue.Base.{List, [], ◌∷◌}
use myapue.Threads.Messages.{
  Consumer, start, testing, waiting, woken, taken, working, Producer, making, locking, holding,
  linked, broadcasting, joining, System, Consumes, lock, wait, wakes, relock, take, unlock, release,
  make, finish, lock_queue, link, unlock_queue, broadcast, Step, consumes, produces, Reach,
}
use myapue.Threads.Messages.Total.{total, total-pos, total-zero, total-eq_below}
use myapue.Threads.Messages.Invariant.{inside, main_inside, has, count, upto, Inv, Reach-Inv}

-- A consumer that leaves pthread_cond_wait without a broadcast.
abbrev pub spurious_move :
    {s : System} {i : ℕ} {c : Consumer} {t : System} → Consumes s i c t → Bool
spurious_move wakes = true
spurious_move _ = false

abbrev pub is_spurious : {threads : ℕ} {s t : System} → Step threads s t → Bool
is_spurious (consumes i lt e c) = spurious_move c
is_spurious (produces e p) = false

-- The program has a next step that is not spurious.
abbrev pub GoesOn : ℕ → System → Type 0
GoesOn threads s = (t : System) × (step : Step threads s t) × (is_spurious step ≡ false)

module _ (threads : ℕ) (s : System) where
  -- A thread between lock and unlock can go on.
  insider :
      (i : ℕ) → i < threads → (c : Consumer) → s.consumer i ≡ c → 0 < inside c → GoesOn threads s
  insider i lt start e h = absurd (omega arith)
  insider i lt testing e h = on_tasks s.tasks refl
    where
      on_tasks : (ms : List ℕ) → s.tasks ≡ ms → GoesOn threads s
      on_tasks [] none_left = (_, consumes i lt e (wait none_left), refl)
      on_tasks (m ∷ ms) some_left = (_, consumes i lt e (take m ms some_left), refl)
  insider i lt waiting e h = absurd (omega arith)
  insider i lt woken e h = absurd (omega arith)
  insider i lt (taken m) e h = (_, consumes i lt e unlock, refl)
  insider i lt (working m) e h = absurd (omega arith)

  main_insider : (p : Producer) → s.producer ≡ p → 0 < main_inside p → GoesOn threads s
  main_insider making e h = absurd (omega arith)
  main_insider (locking m) e h = absurd (omega arith)
  main_insider (holding m) e h = (_, produces e link, refl)
  main_insider linked e h = (_, produces e unlock_queue, refl)
  main_insider broadcasting e h = absurd (omega arith)
  main_insider joining e h = absurd (omega arith)

  module _ {messages : ℕ} (v : Inv threads messages s) where
    -- Where the mutex is held, its holder can go on.
    holder : s.mutex ≡ true → GoesOn threads s
    holder held = elim (Bool-cases (main_inside s.producer == 0)) [
      | inl away ↦
          let (i, lt, pos) =
            total-pos threads (λ i. inside (s.consumer i))
              (ground (arith, v.exclusive, held, away)) in
          insider i lt (s.consumer i) refl pos
      | inr here ↦ main_insider s.producer refl (ground (arith, here))
    ]

    -- A thread that wants the mutex can take it, or the holder can go on.
    contender : ((s.mutex ≡ false) → GoesOn threads s) → GoesOn threads s
    contender takes = elim (Bool-cases s.mutex) [ inl held ↦ holder held | inr free ↦ takes free ]

    consumer_goes :
        (i : ℕ) → i < threads → (c : Consumer) → s.consumer i ≡ c → GoesOn threads s ⊎ (c ≡ waiting)
    consumer_goes i lt start e = inl (contender (λ free. (_, consumes i lt e (lock free), refl)))
    consumer_goes i lt testing e = inl (insider i lt testing e (omega arith))
    consumer_goes i lt waiting e = inr refl
    consumer_goes i lt woken e = inl (contender (λ free. (_, consumes i lt e (relock free), refl)))
    consumer_goes i lt (taken m) e = inl (insider i lt (taken m) e (omega arith))
    consumer_goes i lt (working m) e = inl (_, consumes i lt e release, refl)

    main_goes : (p : Producer) → s.producer ≡ p → GoesOn threads s ⊎ (p ≡ joining)
    main_goes making e = by_count s.task_count refl
      where
        by_count : (k : ℕ) → s.task_count ≡ k → GoesOn threads s ⊎ (making ≡ joining)
        by_count zero none_left = inl (_, produces e (finish none_left), refl)
        by_count (suc k) more = inl (_, produces e (make k more), refl)
    main_goes (locking m) e = inl (contender (λ free. (_, produces e (lock_queue free), refl)))
    main_goes (holding m) e = inl (_, produces e link, refl)
    main_goes linked e = inl (_, produces e unlock_queue, refl)
    main_goes broadcasting e = inl (_, produces e broadcast, refl)
    main_goes joining e = inr refl

    all_go : (n : ℕ) → n ≤ threads → GoesOn threads s ⊎ ((i : ℕ) → i < n → s.consumer i ≡ waiting)
    all_go zero le = inr (λ i lt. absurd (omega arith))
    all_go (suc n) le = elim (all_go n (omega arith)) [
      | inl goes ↦ inl goes
      | inr rest ↦ elim (consumer_goes n (omega arith) (s.consumer n) refl) [
        | inl goes ↦ inl goes
        | inr asleep ↦ inr (λ i lt. elim (Bool-cases (i == n)) [
          | inl same ↦ let e : i ≡ n = ground arith in ap s.consumer e ∙ asleep
          | inr other ↦ rest i (ground arith)
        ])
      ]
    ]

    -- All messages are freed where main has made them all and no thread has one.
    all_freed :
        0 < threads
        → s.producer ≡ joining
        → ((i : ℕ) → i < threads → s.consumer i ≡ waiting)
        → (m : ℕ) → count m s.freed ≡ upto messages m
    all_freed some joined asleep m =
        let empty : s.tasks ≡ [] =
          v.awake 0 (ground (arith, asleep 0 some)) (ground (arith, joined)) in
        let hands : total threads (λ i. has m (s.consumer i)) ≡ total threads (λ i. 0) =
          total-eq_below threads _ _ (λ i lt. ground (arith, asleep i lt)) in
        ground (arith, v.conserved m, joined, v.made joined, empty, hands, total-zero threads)

-- With at least one consumer, in every state that the program reaches either some thread has a next
-- step, other than a spurious wake-up, or main has left its loop, every consumer sleeps, and each
-- message from 1 to the number of messages has been freed exactly once, and no other.
pub Reach-GoesOn :
    {threads messages : ℕ} {s : System}
    → 0 < threads
    → Reach threads messages s
    → GoesOn threads s
      ⊎ ((s.producer ≡ joining)
          × ((i : ℕ) → i < threads → s.consumer i ≡ waiting)
          × ((m : ℕ) → count m s.freed ≡ upto messages m))
Reach-GoesOn {threads} {s = s} some r =
    let v = Reach-Inv r in
    elim (main_goes threads s v s.producer refl) [
      | inl goes ↦ inl goes
      | inr joined ↦ elim (all_go threads s v threads (omega arith)) [
        | inl goes ↦ inl goes
        | inr asleep ↦ inr (joined, asleep, all_freed threads s v some joined asleep)
      ]
    ]
