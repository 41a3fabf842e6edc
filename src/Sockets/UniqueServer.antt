-- ===== src/Sockets/UniqueServer.antt =====
-- 17.uds/04_uniquecon_server.c: server_listen, server_accept and main.
use Prim.Native.String.{String}
use myapue.Base.{ℕ, zero, suc, ◌≤◌, ◌+◌, if◌then◌else◌, ◌≡◌, ◌∙◌, ap, arith, ◌∷◌, length}
use myapue.Posix.{
  Os, Prog, Trace, Status, nonneg, minus_one, pure, ◌>>=◌, ◌>>◌, call, print, failed,
}
use myapue.Posix.{
  value, Call, Answer, Outcome, returns, exits, execs, faults, spins, in_bounds, then_run,
  bind_post,
}
use myapue.Posix.Ledger.{open_fds, failures}

abbrev pub af_unix : ℕ
af_unix = 1

abbrev pub sock_stream : ℕ
sock_stream = 1

abbrev pub server_name : String
server_name = "liucong.unique_connections_server"

abbrev pub maxline : ℕ
maxline = 4096

abbrev pub established_not_accept_queue : ℕ
established_not_accept_queue = 3

module _ (os : Os) where
  -- perror, close and return -1
  pub give_up : String → ℕ → Prog Status
  give_up message fd = do print os message; call os (Call.close fd); pure minus_one

  pub server_listen : String → Prog Status
  unfolding give_up
  server_listen name = do
    a ← call os (Call.socket af_unix sock_stream)
    if failed a then (do print os "socket"; pure minus_one) else do
      call os (Call.unlink name)
      print os "len"
      b ← call os (Call.bind (value a) name)
      if failed b then give_up "bind" (value a) else do
        l ← call os (Call.listen (value a) established_not_accept_queue)
        if failed l then give_up "listen" (value a) else pure (nonneg (value a))

  pub server_accept : ℕ → Prog Status
  unfolding give_up
  server_accept fd = do
    a ← call os (Call.accept fd)
    if failed a then give_up "accept" fd else pure (nonneg (value a))

  -- What the loop of main does with an accepted connection. The write of the final 0 is one past
  -- the buffer when a message fills it.
  pub serve_one : ℕ → Prog (Unit {0})
  serve_one unique_fd = do
    n ← call os (Call.recv unique_fd maxline)
    if failed n
        then (do print os "recv"; pure tt)
        else do in_bounds (value n) maxline; print os "server recved"; pure tt

  -- The rest of a round, and then `rest`, the further rounds.
  pub serve_next : Prog Status → Status → Prog Status
  unfolding serve_one
  serve_next rest minus_one = pure minus_one
  serve_next rest (nonneg unique_fd) = do serve_one unique_fd; rest

  -- The `while (1)` of main, for a number of rounds.
  pub serve : ℕ → ℕ → Prog Status
  unfolding server_accept serve_next
  serve zero fd t = (spins, t)
  serve (suc rounds) fd t = then_run (server_accept fd t) (serve_next (serve rounds fd))

  pub main : ℕ → Prog Status
  unfolding serve
  main rounds = do
    fd ← server_listen server_name
    elim fd [ minus_one ↦ pure minus_one | nonneg fd ↦ serve rounds fd ]

-- How server_listen may end.
abbrev pub Listens : Trace → Outcome Status → Trace → Type 0
Listens t (returns (nonneg fd)) t' = (open_fds t' ≡ fd ∷ open_fds t) × (failures t' ≡ failures t)
Listens t (returns minus_one) t' = (open_fds t' ≡ open_fds t) × (failures t' ≡ suc (failures t))
Listens t _ t' = ⊥

-- server_listen returns a listening socket, the only descriptor that it leaves open, with no failed
-- call; or it returns -1 after the first call that failed, and leaves no descriptor open.
pub server_listen-Listens :
    (os : Os) (name : String) (t : Trace)
    → let run = server_listen os name t in Listens t run.0 run.1
unfolding server_listen
server_listen-Listens os name t = ground arith

-- The latest call is an accept that failed, and the close of the listening socket after it.
abbrev pub IsRefused : ℕ → Trace → Type 0
IsRefused fd ((Call.close c, _) ∷ _ ∷ (Call.accept a, Answer.fail _) ∷ t) = (c ≡ fd) × (a ≡ fd)
IsRefused fd _ = ⊥

-- The latest call received a message that fills the buffer.
abbrev pub IsOverlong : Trace → Type 0
IsOverlong ((Call.recv _ _, Answer.ok n _) ∷ t) = maxline ≤ n
IsOverlong _ = ⊥

abbrev pub Serves : ℕ → ℕ → Trace → Outcome Status → Trace → Type 0
Serves fd rounds t spins t' = length (open_fds t') ≡ rounds + length (open_fds t)
Serves fd rounds t (returns minus_one) t' = IsRefused fd t'
Serves fd rounds t faults t' = IsOverlong t'
Serves fd rounds t _ t' = ⊥

-- How server_accept may end.
abbrev pub Accepts : ℕ → Trace → Outcome Status → Trace → Type 0
Accepts fd t (returns (nonneg u)) t' = open_fds t' ≡ u ∷ open_fds t
Accepts fd t (returns minus_one) t' = IsRefused fd t'
Accepts fd t _ t' = ⊥

server_accept-Accepts :
    (os : Os) (fd : ℕ) (t : Trace) → let run = server_accept os fd t in Accepts fd t run.0 run.1
unfolding server_accept
server_accept-Accepts os fd t = ground arith

-- How the rest of a round may end.
abbrev Handles : Trace → Outcome (Unit {0}) → Trace → Type 0
Handles t (returns _) t' = open_fds t' ≡ open_fds t
Handles t faults t' = IsOverlong t'
Handles t _ t' = ⊥

serve_one-Handles :
    (os : Os) (u : ℕ) (t : Trace) → let run = serve_one os u t in Handles t run.0 run.1
unfolding serve_one
serve_one-Handles os u t = ground arith

Serves-of_fds :
    (fd m n : ℕ) (t u : Trace)
    → m + length (open_fds u) ≡ n + length (open_fds t)
    → (o : Outcome Status) (v : Trace) → Serves fd m u o v
    → Serves fd n t o v
Serves-of_fds fd m n t u e spins v h = omega arith
Serves-of_fds fd m n t u e (returns minus_one) v h = h
Serves-of_fds fd m n t u e (returns (nonneg _)) v h = h
Serves-of_fds fd m n t u e faults v h = h
Serves-of_fds fd m n t u e (exits _) v h = h
Serves-of_fds fd m n t u e (execs _) v h = h

serve_next-Serves :
    (os : Os) (rounds fd : ℕ) (t : Trace) (rest : Prog Status)
    → ((u : Trace) → Serves fd rounds u (rest u).0 (rest u).1)
    → (a : Status) (u : Trace) → Accepts fd t (returns a) u
    → let run = serve_next os rest a u in Serves fd (suc rounds) t run.0 run.1
unfolding serve_next
serve_next-Serves os rounds fd t rest ih minus_one u h = h
serve_next-Serves os rounds fd t rest ih (nonneg c) u h =
    bind_post (Handles u) (Serves fd (suc rounds) t) (λ _. rest)
      (λ a v e.
        Serves-of_fds fd rounds (suc rounds) t v (omega (arith, ap length (e ∙ h))) _ _ (ih v))
      (λ n v e. e) (λ n v e. e) (λ v e. e) (λ v e. absurd e) (serve_one os c u)
      (serve_one-Handles os c u)

-- The loop never closes a connection that it has accepted: as long as it runs, every round leaves
-- one more descriptor open. It ends only after a failed accept, with the listening socket closed,
-- or by a write past the buffer, on a message of at least MAXLINE bytes.
pub serve-Serves :
    (os : Os) (rounds fd : ℕ) (t : Trace)
    → let run = serve os rounds fd t in Serves fd rounds t run.0 run.1
unfolding serve
serve-Serves os zero fd t = omega arith
serve-Serves os (suc rounds) fd t =
    bind_post (Accepts fd t) (Serves fd (suc rounds) t) (serve_next os (serve os rounds fd))
      (serve_next-Serves os rounds fd t (serve os rounds fd) (serve-Serves os rounds fd))
      (λ n u h. h) (λ c u h. h) (λ u h. absurd h) (λ u h. absurd h) (server_accept os fd t)
      (server_accept-Accepts os fd t)
