-- ===== src/PollMsg/Ends.antt =====
-- How main may end.
use myapue.Base.{
  refl, ◌+◌, ◌≡◌, ℕ, zero, suc, ◌<◌, ◌≤◌, Bool, true, false, List, ◌∷◌, ◌++◌, take, drop, arith,
}
use myapue.Posix.{
  Os, Trace, Call, Outcome, returns, faults, spins, value, out_of, Status, minus_one, bind_post,
}
use myapue.Posix.Ledger.{failures}
use myapue.PollMsg.{
  number_threads, EpollEvent, events_of, add_thread, add_threads, scan, poll, main,
}
use myapue.PollMsg.Scan.{HasLongRead, waits, Scans, scan-Scans, first_fd}

abbrev Adds : ℕ → Outcome Bool → Trace → Type 0
Adds before (returns true) t = waits t ≡ before
Adds before (returns false) t = 0 < failures t
Adds before _ t = ⊥

-- How main may end, or be after `all` rounds of its second loop.
abbrev pub Polls : ℕ → Outcome Status → Trace → Type 0
Polls all (returns minus_one) t = 0 < failures t
Polls all faults t = HasLongRead t
Polls all spins t = waits t ≡ all
Polls all _ t = ⊥

module _ (os : Os) where
  add_thread-Adds :
      (epfd i : ℕ) (t : Trace)
      → Adds (waits t) (add_thread os epfd i t).0 (add_thread os epfd i t).1
  unfolding add_thread
  add_thread-Adds epfd i t = ground arith

  add_threads-Adds :
      (epfd rounds i : ℕ) (t : Trace)
      → Adds (waits t) (add_threads os epfd rounds i t).0 (add_threads os epfd rounds i t).1
  unfolding add_threads
  add_threads-Adds epfd zero i t = refl
  add_threads-Adds epfd (suc rounds) i t = ground (
    arith,
    add_thread-Adds epfd i t,
    add_threads-Adds epfd rounds (suc i) (add_thread os epfd i t).1,
  )

  module _
      (few : (t : Trace) (epfd : ℕ)
        → value (os t (Call.epoll_wait epfd number_threads)) ≤ number_threads) where
    poll-Polls :
        (rounds epfd : ℕ) (events : List EpollEvent) (t : Trace) (all : ℕ)
        → rounds + waits t ≡ all
        → Polls all (poll os rounds epfd events t).0 (poll os rounds epfd events t).1
    unfolding poll
    poll-Polls zero epfd events t all e = omega (arith, e)
    poll-Polls (suc rounds) epfd events t all counted =
        let asked : Call = Call.epoll_wait epfd number_threads in
        let e = os t asked in
        let t₁ : Trace = (asked, e) ∷ t in
        let r : Call = Call.report "epoll_wait" in
        let n : Call = Call.report "n" in
        let t₂ : Trace = (n, os t₁ n) ∷ t₁ in
        let stored = take (value e) (events_of (out_of e)) ++ drop (value e) events in
        ground (
          arith,
          poll-Polls rounds epfd events ((r, os t₁ r) ∷ t₁) all (omega (arith, counted)),
          bind_post (Scans 3 (first_fd os stored) t₂) (Polls all) (λ _. poll os rounds epfd stored)
              (λ _ t' h. poll-Polls rounds epfd stored t' all (omega (arith, counted, h.2)))
              (λ n t' h. absurd h) (λ n t' h. absurd h) (λ t' h. h.0) (λ t' h. absurd h)
              (scan os 4 0 (value e) stored t₂) (scan-Scans os stored (value e) t₂ (few t epfd)),
        )

-- Where epoll_wait answers at most as many events as it was asked for, after any number of
-- rounds: main is still in its loop and has called epoll_wait once in each round, so that no pass
-- over the events goes on for ever, or it has returned -1 and a call has failed, or it has gone
-- beyond the array of events or the buffer, and the latest read has answered more than
-- NUMBER_THREADS bytes.
pub main-Polls :
    (os : Os)
    → ((t : Trace) (epfd : ℕ) → value (os t (Call.epoll_wait epfd number_threads)) ≤ number_threads)
    → (rounds : ℕ) (events : List EpollEvent) (t : Trace)
    → Polls (rounds + waits t) (main os rounds events t).0 (main os rounds events t).1
unfolding main
main-Polls os few rounds events t =
    let asked : Call = Call.epoll_create number_threads in
    let e = os t asked in
    let t₁ : Trace = (asked, e) ∷ t in
    let added = add_threads os (value e) number_threads 0 t₁ in
    ground (
      arith,
      add_threads-Adds os (value e) number_threads 0 t₁,
      poll-Polls os few rounds (value e) events added.1 (rounds + waits t),
    )
