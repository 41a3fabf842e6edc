-- ===== src/AsyncCopy/Directed.antt =====
-- The requests of the whole copy.
use myapue.Base.{map, ℕ, zero, suc, ◌≡◌, List, [], ◌∷◌, refl, arith}
use myapue.Posix.{Os, Prog, Trace, Call, Answer, Status, bind_post}
use myapue.AsyncCopy.{Wrap, Counters, sweep, turn, copy, copy_opened, wraps, finish}
use myapue.AsyncCopy.Blocks.{
  IsDirected, fetched, FollowsFrom, FollowsFrom-later, DirectsAll, sweep-DirectsAll,
}

module _ (os : Os) (in_fd out_fd size : ℕ) where
  module _ (ws : List Wrap) (c : Counters) (again : Prog Status)
      (goes_on : (t : Trace)
        → FollowsFrom size 0 ws c.offset t
        → IsDirected in_fd out_fd size t
        → IsDirected in_fd out_fd size (again t).1) where
    turn-IsDirected :
        (t : Trace)
        → FollowsFrom size 0 ws c.offset t
        → IsDirected in_fd out_fd size t
        → IsDirected in_fd out_fd size (turn os in_fd out_fd size ws c again t).1
    unfolding turn finish
    turn-IsDirected t h d =
        let later : (t' : Trace)
            → ((j : ℕ) → fetched j t' ≡ fetched j t)
            → FollowsFrom size 0 ws c.offset t' =
          λ t' same.
            FollowsFrom-later size 0 ws c.offset c.offset t t' h (omega arith) (λ j le. same j) in
        let asked : Call = Call.aio_suspend (map (λ w. w.listed) ws) in
        let t₁ : Trace = (asked, os t asked) ∷ t in
        let told : Call = Call.report "aio_suspend" in
        let t₂ : Trace = (told, os t₁ told) ∷ t₁ in
        ground (
          arith,
          goes_on t h d,
          goes_on t₁ (later t₁ (λ j. refl)) d,
          goes_on t₂ (later t₂ (λ j. refl)) d,
        )

  copy-IsDirected :
      (rounds : ℕ) (ws : List Wrap) (c : Counters) (t : Trace)
      → FollowsFrom size 0 ws c.offset t
      → IsDirected in_fd out_fd size t
      → IsDirected in_fd out_fd size (copy os in_fd out_fd size rounds ws c t).1
  unfolding copy
  copy-IsDirected zero ws c t h d = d
  copy-IsDirected (suc rounds) ws c t h d =
      bind_post (DirectsAll in_fd out_fd size 0 c t) (λ o t'. IsDirected in_fd out_fd size t')
        (λ r. turn os in_fd out_fd size r.0 r.1 (copy os in_fd out_fd size rounds r.0 r.1))
        (λ r t' s.
          turn-IsDirected r.0 r.1 (copy os in_fd out_fd size rounds r.0 r.1)
            (copy-IsDirected rounds r.0 r.1) t' s.1 s.0)
        (λ n t' s. s) (λ n t' s. s) (λ t' s. s) (λ t' s. s) (sweep os in_fd out_fd size 0 ws c t)
        (sweep-DirectsAll os in_fd out_fd size 0 ws c t h d)

  pub copy_opened-IsDirected :
      (rounds : ℕ) (t : Trace)
      → os t (Call.fstat in_fd) ≡ Answer.ok 0 (size ∷ [])
      → IsDirected in_fd out_fd size t
      → IsDirected in_fd out_fd size (copy_opened os rounds in_fd out_fd t).1
  unfolding copy_opened
  copy_opened-IsDirected rounds t sized d = rw sized (
      copy-IsDirected rounds wraps (record { offset = 0; num_to_process = 0 })
        ((Call.fstat in_fd, Answer.ok 0 (size ∷ [])) ∷ t) (ground arith) d)
