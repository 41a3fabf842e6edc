-- ===== src/Popen/Pairs.antt =====
-- What a call of my_pclose does after a call of my_popen.
use Prim.Native.String.{String}
use myapue.Base.{
  Bool, true, false, Bool-cases, inl, inr, ℕ, zero, suc, ◌==◌, ◌<◌, ◌≡◌, ◌≢◌, refl, arith, List, [],
  ◌∷◌, Option, none, some, get_or, replicate, length, get_or-set_self, get_or-set_ne,
}
use myapue.Posix.{
  Os, Trace, Status, minus_one, nonneg, Call, Answer, Outcome, returns, faults, value, out_of,
}
use myapue.Popen.{
  Direction, reading, writing, other, Pids, run_child, keep_end, fork_off, open_max, allocated,
  my_popen, my_pclose,
}

-- The child of the latest fork.
abbrev pub child_of : Trace → ℕ
child_of [] = 0
child_of ((Call.fork, Answer.ok pid _) ∷ t) = pid
child_of (_ ∷ t) = child_of t

get_or-replicate : (n k : ℕ) → get_or {A = ℕ} (replicate n 0) k 0 ≡ 0
get_or-replicate zero k = refl
get_or-replicate (suc n) zero = refl
get_or-replicate (suc n) (suc k) = get_or-replicate n k

-- At `k` the array has the child's number, if k is the stream's descriptor, and 0 otherwise.
abbrev pub Holds : ℕ → Outcome (Option ℕ × Pids) → Trace → Type 0
Holds k (returns (some fd, some pids)) t =
    (0 < child_of t) × (k ≡ fd → get_or pids k 0 ≡ child_of t) × (k ≢ fd → get_or pids k 0 ≡ 0)
Holds k (returns (some fd, none)) t = ⊥
Holds k _ t = Unit {0}

module _ (os : Os) (k size : ℕ) where
  keep_end-Holds :
      (type : Direction) (pid in_fd out_fd : ℕ) (t : Trace)
      → 0 < pid
      → child_of t ≡ pid
      → Holds k
          (keep_end os type pid in_fd out_fd (some (replicate size 0)) t).0
          (keep_end os type pid in_fd out_fd (some (replicate size 0)) t).1
  unfolding keep_end
  keep_end-Holds reading pid in_fd out_fd t pos e = ground (
    arith,
    e,
    pos,
    get_or-set_self (replicate size 0) in_fd pid 0,
    get_or-set_ne (replicate size 0) in_fd k pid 0,
    get_or-replicate size k,
  )
  keep_end-Holds writing pid in_fd out_fd t pos e = ground (
    arith,
    e,
    pos,
    get_or-set_self (replicate size 0) out_fd pid 0,
    get_or-set_ne (replicate size 0) out_fd k pid 0,
    get_or-replicate size k,
  )
  keep_end-Holds other pid in_fd out_fd t pos e = tt

  run_child-Holds :
      (type : Direction) (command : String) (in_fd out_fd : ℕ) (pids : Pids) (t : Trace)
      → Holds k
          (run_child os type command in_fd out_fd pids t).0
          (run_child os type command in_fd out_fd pids t).1
  unfolding run_child
  run_child-Holds reading command in_fd out_fd pids t = ground arith
  run_child-Holds writing command in_fd out_fd pids t = ground arith
  run_child-Holds other command in_fd out_fd pids t = tt

  keep_none-Holds :
      (type : Direction) (pid in_fd out_fd : ℕ) (t : Trace)
      → Holds k
          (keep_end os type pid in_fd out_fd none t).0
          (keep_end os type pid in_fd out_fd none t).1
  unfolding keep_end
  keep_none-Holds reading pid in_fd out_fd t = tt
  keep_none-Holds writing pid in_fd out_fd t = tt
  keep_none-Holds other pid in_fd out_fd t = tt

  fork_off-Holds :
      (type : Direction) (command : String) (in_fd out_fd : ℕ) (a : Answer) (t : Trace)
      → Holds k
          (fork_off os type command in_fd out_fd (allocated size a) t).0
          (fork_off os type command in_fd out_fd (allocated size a) t).1
  unfolding fork_off
  fork_off-Holds type command in_fd out_fd (Answer.ok v out) t =
      let c = os t Call.fork in
      let t₁ : Trace = (Call.fork, c) ∷ t in
      ground (
        arith,
        run_child-Holds type command in_fd out_fd (some (replicate size 0)) t₁,
        keep_end-Holds type (value c) in_fd out_fd t₁,
      )
  fork_off-Holds type command in_fd out_fd (Answer.fail e) t =
      let c = os t Call.fork in
      let t₁ : Trace = (Call.fork, c) ∷ t in
      ground (
        arith,
        run_child-Holds type command in_fd out_fd none t₁,
        keep_none-Holds type (value c) in_fd out_fd t₁,
      )

my_popen-Holds :
    (os : Os) (k : ℕ) (command : String) (type : Direction) (old : Pids) (t : Trace)
    → Holds k (my_popen os command type old t).0 (my_popen os command type old t).1
unfolding my_popen
my_popen-Holds os k command type old t =
    let p = os t Call.pipe in
    let t₁ : Trace = (Call.pipe, p) ∷ t in
    let n = os t₁ Call.sysconf in
    let t₂ : Trace = (Call.sysconf, n) ∷ t₁ in
    let r : Call = Call.report "open_max" in
    let t₃ : Trace = (r, os t₂ r) ∷ t₂ in
    let c : Call = Call.calloc (open_max n) in
    let a = os t₃ c in
    ground (
      arith,
      fork_off-Holds os k (open_max n) type command (get_or (out_of p) 0 0) (get_or (out_of p) 1 0)
          a ((c, a) ∷ t₃),
    )

-- The call of my_pclose has waited for the process `pid`, and called nothing else.
abbrev pub HasWaited : ℕ → Trace → Outcome Status × Trace → Type 0
HasWaited pid u ((returns (nonneg status)), ((Call.waitpid p, Answer.ok _ _) ∷ u')) =
    (p ≡ pid) × (u' ≡ u)
HasWaited pid u (faults, ((Call.waitpid p, Answer.fail _) ∷ u')) = (p ≡ pid) × (u' ≡ u)
HasWaited pid u _ = ⊥

-- Whether the call of my_pclose has waited for `pid`, or has returned -1 and called nothing.
abbrev pub ClosesIf : Bool → ℕ → Trace → Outcome Status × Trace → Type 0
ClosesIf true pid u r = HasWaited pid u r
ClosesIf false pid u r = r ≡ (returns minus_one, u)

-- Where my_popen has returned the stream of the descriptor `fd` in the parent: from then on, my_pclose
-- of that stream waits for the child that this call has forked, and for nothing else; and my_pclose
-- of any other stream within the array, such as one of an earlier my_popen, whatever the array
-- held before, returns -1 and waits for nobody.
pub my_pclose-my_popen :
    (os : Os) (command : String) (type : Direction) (old : Pids) (t : Trace) (fd : ℕ)
    (pids : List ℕ)
    → (my_popen os command type old t).0 ≡ returns (some fd, some pids)
    → (k : ℕ) (u : Trace) → k < length pids
    → ClosesIf
        (k == fd)
        (child_of (my_popen os command type old t).1)
        u
        (my_pclose os k (some pids) u)
unfolding my_pclose
my_pclose-my_popen os command type old t fd pids e k u lt =
    let h = my_popen-Holds os k command type old t in
    let h' : Holds k (returns (some fd, some pids)) (my_popen os command type old t).1 =
      rw e at h in
    elim (Bool-cases (k == fd)) [
      | inl same ↦ rw same (ground (arith, h', same))
      | inr ne ↦ rw ne (ground (arith, h', ne))
    ]
