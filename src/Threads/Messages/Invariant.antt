-- ===== src/Threads/Messages/Invariant.antt =====
-- What holds in every state that the program reaches.
use myapue.Base.{
  ℕ, ◌+◌, ◌<◌, ◌==◌, ◌≡◌, refl, arith, Bool, Bool-cases, inl, inr, true, false, ◌&&◌, leb,
}
use myapue.Base.{List, [], ◌∷◌}
use myapue.Threads.Runs.{write}
use myapue.Threads.Messages.{
  Consumer, start, testing, waiting, woken, taken, working, Producer, locking, holding, linked,
  broadcasting, joining, System, wake, Consumes, lock, wait, wakes, relock, take, unlock, release,
  Produces, make, finish, lock_queue, link, unlock_queue, broadcast, consumes, produces, init,
  Reach, here, later,
}
use myapue.Threads.Messages.Total.{total, total-zero, total-ext, total-write}

abbrev pub indicator : Bool → ℕ
indicator true = 1
indicator false = 0

-- Whether a thread is between lock and unlock.
abbrev pub inside : Consumer → ℕ
inside testing = 1
inside (taken m) = 1
inside _ = 0

abbrev pub main_inside : Producer → ℕ
main_inside (holding m) = 1
main_inside linked = 1
main_inside _ = 0

-- Whether a message is in a thread's hands.
abbrev pub has : ℕ → Consumer → ℕ
has m (taken k) = indicator (k == m)
has m (working k) = indicator (k == m)
has m _ = 0

abbrev pub main_has : ℕ → Producer → ℕ
main_has m (locking k) = indicator (k == m)
main_has m (holding k) = indicator (k == m)
main_has m _ = 0

abbrev pub count : ℕ → List ℕ → ℕ
count m [] = 0
count m (x ∷ xs) = indicator (x == m) + count m xs

-- The messages from 1 to k.
abbrev pub upto : ℕ → ℕ → ℕ
upto k m = indicator (leb 1 m && leb m k)

abbrev pub sleeps : Consumer → Bool
sleeps waiting = true
sleeps _ = false

-- A message has been linked in, and the broadcast is still to come.
abbrev pub announces : Producer → Bool
announces linked = true
announces broadcasting = true
announces _ = false

-- How many times a message is somewhere.
abbrev pub places : ℕ → System → ℕ → ℕ
places threads s m =
    upto s.task_count m
    + main_has m s.producer
    + count m s.tasks
    + total threads (λ i. has m (s.consumer i))
    + count m s.freed

pub record Inv (threads messages : ℕ) (s : System) : Type 0 where
  pub exclusive :
      total threads (λ i. inside (s.consumer i)) + main_inside s.producer ≡ indicator s.mutex
  pub conserved : (m : ℕ) → places threads s m ≡ upto messages m
  pub awake : (i : ℕ) → sleeps (s.consumer i) ≡ true → announces s.producer ≡ false → s.tasks ≡ []
  pub made : s.producer ≡ joining → s.task_count ≡ 0

inside-wake : (c : Consumer) → inside (wake c) ≡ inside c
inside-wake c = ground arith

has-wake : (m : ℕ) (c : Consumer) → has m (wake c) ≡ has m c
has-wake m c = ground arith

sleeps-wake : (c : Consumer) → sleeps (wake c) ≡ false
sleeps-wake c = ground arith

init-Inv : (threads messages : ℕ) → Inv threads messages (init messages)
init-Inv threads messages = record {
  exclusive = omega (arith, total-zero threads);
  conserved = λ m. omega (arith, total-zero threads);
  awake = λ i h. cc;
  made = λ h. cc;
}

Produces-Inv :
    {threads messages : ℕ} {s t : System} {p : Producer}
    → Inv threads messages s
    → s.producer ≡ p
    → Produces s p t
    → Inv threads messages t
Produces-Inv v e (make k c) = record {
  exclusive = ground (arith, v.exclusive, e);
  conserved = λ m. ground (arith, v.conserved m, e, c);
  awake = λ i h a. v.awake i h (ground (arith, e));
  made = λ h. cc;
}
Produces-Inv v e (finish c) = record {
  exclusive = ground (arith, v.exclusive, e);
  conserved = λ m. ground (arith, v.conserved m, e, c);
  awake = λ i h a. v.awake i h (ground (arith, e));
  made = λ h. c;
}
Produces-Inv v e (lock_queue free) = record {
  exclusive = ground (arith, v.exclusive, e, free);
  conserved = λ m. ground (arith, v.conserved m, e);
  awake = λ i h a. v.awake i h (ground (arith, e));
  made = λ h. cc;
}
Produces-Inv v e link = record {
  exclusive = ground (arith, v.exclusive, e);
  conserved = λ m. ground (arith, v.conserved m, e);
  awake = λ i h a. cc;
  made = λ h. cc;
}
Produces-Inv v e unlock_queue = record {
  exclusive = ground (arith, v.exclusive, e);
  conserved = λ m. ground (arith, v.conserved m, e);
  awake = λ i h a. cc;
  made = λ h. cc;
}
Produces-Inv {threads} {s = s} v e broadcast = record {
  exclusive =
      ground (arith, v.exclusive, e, total-ext threads _ _ (λ i. inside-wake (s.consumer i)));
  conserved =
      λ m. ground (arith, v.conserved m, e, total-ext threads _ _ (λ i. has-wake m (s.consumer i)));
  awake = λ i h a. absurd (cc (sleeps-wake (s.consumer i)));
  made = λ h. cc;
}

-- A thread that is moved to a place where it does not sleep wakes nobody.
still_asleep :
    (c : ℕ → Consumer) (i j : ℕ) (to : Consumer)
    → sleeps to ≡ false
    → sleeps (write c i to j) ≡ true
    → sleeps (c j) ≡ true
still_asleep c i j to up h = elim (Bool-cases (j == i)) [
  | inl same ↦ let h' : sleeps to ≡ true = rw same at h in cc
  | inr other ↦ rw other at h
]

Consumes-Inv :
    {threads messages i : ℕ} {s t : System} {c : Consumer}
    → Inv threads messages s
    → i < threads
    → s.consumer i ≡ c
    → Consumes s i c t
    → Inv threads messages t
Consumes-Inv {threads} {i = i} {s} v lt e (lock free) = record {
  exclusive =
      ground (arith, v.exclusive, e, free, total-write inside s.consumer i testing threads lt);
  conserved = λ k.
      ground (arith, v.conserved k, e, free, total-write (has k) s.consumer i testing threads lt);
  awake = λ j h a. v.awake j (still_asleep s.consumer i j testing refl h) a;
  made = v.made;
}
Consumes-Inv {threads} {i = i} {s} v lt e (wait none_left) = record {
  exclusive = ground (arith, v.exclusive, e, total-write inside s.consumer i waiting threads lt);
  conserved =
      λ k. ground (arith, v.conserved k, e, total-write (has k) s.consumer i waiting threads lt);
  awake = λ j h a. none_left;
  made = v.made;
}
Consumes-Inv {threads} {i = i} {s} v lt e wakes = record {
  exclusive = ground (arith, v.exclusive, e, total-write inside s.consumer i woken threads lt);
  conserved =
      λ k. ground (arith, v.conserved k, e, total-write (has k) s.consumer i woken threads lt);
  awake = λ j h a. v.awake j (still_asleep s.consumer i j woken refl h) a;
  made = v.made;
}
Consumes-Inv {threads} {i = i} {s} v lt e (relock free) = record {
  exclusive =
      ground (arith, v.exclusive, e, free, total-write inside s.consumer i testing threads lt);
  conserved = λ k.
      ground (arith, v.conserved k, e, free, total-write (has k) s.consumer i testing threads lt);
  awake = λ j h a. v.awake j (still_asleep s.consumer i j testing refl h) a;
  made = v.made;
}
Consumes-Inv {threads} {i = i} {s} v lt e (take m ms some_left) = record {
  exclusive =
      ground
        (arith, v.exclusive, e, some_left, total-write inside s.consumer i (taken m) threads lt);
  conserved = λ k.
      ground
        (arith, v.conserved k, e, some_left, total-write (has k) s.consumer i (taken m) threads lt);
  awake = λ j h a. cc (some_left, v.awake j (still_asleep s.consumer i j (taken m) refl h) a);
  made = v.made;
}
Consumes-Inv {threads} {i = i} {s} v lt e (unlock {m = m}) = record {
  exclusive =
      ground (arith, v.exclusive, e, total-write inside s.consumer i (working m) threads lt);
  conserved = λ k.
      ground (arith, v.conserved k, e, total-write (has k) s.consumer i (working m) threads lt);
  awake = λ j h a. v.awake j (still_asleep s.consumer i j (working m) refl h) a;
  made = v.made;
}
Consumes-Inv {threads} {i = i} {s} v lt e release = record {
  exclusive = ground (arith, v.exclusive, e, total-write inside s.consumer i start threads lt);
  conserved =
      λ k. ground (arith, v.conserved k, e, total-write (has k) s.consumer i start threads lt);
  awake = λ j h a. v.awake j (still_asleep s.consumer i j start refl h) a;
  made = v.made;
}

-- In every state that the program reaches, with any number of consumers and of messages and
-- whatever the order of the steps: at most one thread is between lock and unlock, and the mutex is
-- held exactly then; each message from 1 to the number of messages is in exactly one place, still
-- to be made, in a thread's hands, in `tasks`, or freed, and there is no other; a consumer sleeps in
-- pthread_cond_wait while there are tasks only if main is about to broadcast; and main leaves its
-- loop only when all messages are made.
pub Reach-Inv :
    {threads messages : ℕ} {s : System} → Reach threads messages s → Inv threads messages s
Reach-Inv {threads} {messages} here = init-Inv threads messages
Reach-Inv (later r (consumes i lt e c)) = Consumes-Inv (Reach-Inv r) lt e c
Reach-Inv (later r (produces e p)) = Produces-Inv (Reach-Inv r) e p
