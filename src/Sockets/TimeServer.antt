-- ===== src/Sockets/TimeServer.antt =====
-- 16.socket/05_timeserver1.c.
use Prim.Native.String.{String}
use text.Mathlib.Text.{◌==◌ as str_eq}
use myapue.Base.{
  ℕ, suc, ◌≤◌, ◌==◌, if◌then◌else◌, ◌⊎◌, ◌≡◌, arith, List, [], ◌∷◌, length, Option, none, some,
}
use myapue.Posix.{
  Os, Prog, Trace, Status, nonneg, minus_one, pure, ◌>>=◌, ◌>>◌, call, print, failed,
}
use myapue.Posix.{
  value, out_of, Call, Answer, Outcome, returns, faults, in_bounds, fault, bind_post,
}
use myapue.Posix.Ledger.{open_fds, failures}

abbrev pub sock_stream : ℕ
sock_stream = 1

abbrev pub sock_dgram : ℕ
sock_dgram = 2

abbrev pub af_inet : ℕ
af_inet = 2

-- The socket type that argv[1] names.
pub type_of : String → Option ℕ
type_of arg =
    if str_eq arg "tcp"
    then some sock_stream
    else if str_eq arg "udp"
    then some sock_dgram
    else none

module _ (os : Os) where
  pub give_up : String → ℕ → Prog Status
  give_up message fd = do print os message; call os (Call.close fd); pure minus_one

  -- The output of uptime. Reading from a stream that was not opened, and the length of a buffer
  -- that was not filled, are undefined.
  pub uptime : Prog (List ℕ)
  uptime = do
    s ← call os (Call.popen "/usr/bin/uptime")
    if failed s
        then fault
        else do l ← call os (Call.fgets (value s)); if failed l then fault else pure (out_of l)

  -- What the branch for SOCK_STREAM does with a connection.
  pub answer : ℕ → ℕ → Prog Status
  unfolding uptime
  answer fd new_fd = do
    text ← uptime
    s ← call os (Call.send new_fd text)
    if failed s
        then (do
          print os "send"
          call os (Call.close new_fd)
          call os (Call.close fd)
          pure minus_one)
        else (do call os (Call.close fd); pure (nonneg 0))

  -- The branch for SOCK_STREAM: up to the connection, and from it on.
  pub accept_stream : ℕ → Prog Status
  unfolding give_up
  accept_stream fd = do
    l ← call os (Call.listen fd 10)
    if failed l then give_up "listen" fd else do
      a ← call os (Call.accept fd)
      if failed a then give_up "accept" fd else pure (nonneg (value a))

  pub answer_stream : ℕ → Status → Prog Status
  answer_stream fd minus_one = pure minus_one
  answer_stream fd (nonneg new_fd) = answer fd new_fd

  pub serve_stream : ℕ → Prog Status
  serve_stream fd = do s ← accept_stream fd; answer_stream fd s

  -- The branch for SOCK_DGRAM. A recvfrom that fails has n = -1, and tempbuf[-1] is written.
  pub serve_datagram : ℕ → Prog Status
  unfolding give_up uptime
  serve_datagram fd = do
    n ← call os (Call.recvfrom fd 100)
    print os "host"
    if failed n then fault else do
      in_bounds (value n) 100
      text ← uptime
      s ← call os (Call.sendto fd text)
      if failed s then give_up "sendto" fd else do call os (Call.close fd); pure (nonneg 0)

  -- From `socket` to `bind`: the descriptor, or the -1 that main returns.
  pub open_bound : ℕ → Prog Status
  unfolding give_up
  open_bound kind = do
    a ← call os (Call.socket af_inet kind)
    if failed a then (do print os "socket"; pure minus_one) else do
      h ← call os Call.gethostname
      if failed h then give_up "gethostname" (value a) else do
        r ← call os (Call.getaddrinfo kind)
        if failed r then give_up "getaddrinfo" (value a) else do
          b ← call os (Call.bind (value a) "my_service_test")
          if failed b then give_up "bind" (value a) else pure (nonneg (value a))

  -- The two branches on the type of the socket.
  pub serve : ℕ → Status → Prog Status
  serve kind minus_one = pure minus_one
  serve kind (nonneg fd) = if kind == sock_stream then serve_stream fd else serve_datagram fd

  pub run_server : ℕ → Prog Status
  run_server kind = do s ← open_bound kind; serve kind s

  pub main : ℕ → String → Prog Status
  unfolding run_server type_of
  main argc arg =
      if argc == 2
      then elim (type_of arg) [ none ↦ pure minus_one | some kind ↦ run_server kind ]
      else pure minus_one

-- What the latest recvfrom answered.
abbrev pub latest_datagram : Trace → Option Answer
latest_datagram [] = none
latest_datagram ((Call.recvfrom _ _, a) ∷ t) = some a
latest_datagram ((c, a) ∷ t) = latest_datagram t

-- No datagram, or more bytes than fit.
abbrev pub IsBadDatagram : Option Answer → Type 0
IsBadDatagram none = ⊥
IsBadDatagram (some (Answer.fail e)) = Unit
IsBadDatagram (some (Answer.ok n out)) = 100 ≤ n

-- uptime could not be started or gave no line.
abbrev pub IsSilent : Trace → Type 0
IsSilent ((Call.popen _, Answer.fail _) ∷ t) = Unit
IsSilent ((Call.fgets _, Answer.fail _) ∷ t) = Unit
IsSilent _ = ⊥

-- How open_bound may end.
abbrev pub Opens : Trace → Outcome Status → Trace → Type 0
Opens t (returns (nonneg fd)) t' = (open_fds t' ≡ fd ∷ open_fds t) × (failures t' ≡ failures t)
Opens t (returns minus_one) t' = (open_fds t' ≡ open_fds t) × (failures t' ≡ suc (failures t))
Opens t _ t' = ⊥

open_bound-Opens :
    (os : Os) (kind : ℕ) (t : Trace) → let run = open_bound os kind t in Opens t run.0 run.1
unfolding open_bound
open_bound-Opens os kind t = ground arith

-- How a datagram server may end, with the descriptors `fds` of the process it began in and
-- `errors` failed calls before.
abbrev pub EndsDatagram : List ℕ → ℕ → Outcome Status → Trace → Type 0
EndsDatagram fds errors (returns (nonneg n)) t' =
    (n ≡ 0) × (open_fds t' ≡ fds) × (failures t' ≡ errors)
EndsDatagram fds errors (returns minus_one) t' = (open_fds t' ≡ fds) × (failures t' ≡ suc errors)
EndsDatagram fds errors faults t' = IsSilent t' ⊎ IsBadDatagram (latest_datagram t')
EndsDatagram fds errors _ t' = ⊥

serve_datagram-Ends :
    (os : Os) (fd : ℕ) (fds : List ℕ) (t : Trace)
    → open_fds t ≡ fd ∷ fds
    → let run = serve_datagram os fd t in EndsDatagram fds (failures t) run.0 run.1
unfolding serve_datagram
serve_datagram-Ends os fd fds t h = ground arith

-- How a stream server may end.
abbrev pub EndsStream : List ℕ → ℕ → Outcome Status → Trace → Type 0
EndsStream fds errors (returns (nonneg n)) t' =
    (n ≡ 0) × (length (open_fds t') ≡ suc (length fds)) × (failures t' ≡ errors)
EndsStream fds errors (returns minus_one) t' = (open_fds t' ≡ fds) × (failures t' ≡ suc errors)
EndsStream fds errors faults t' = IsSilent t'
EndsStream fds errors _ t' = ⊥

answer-Ends :
    (os : Os) (fd new_fd : ℕ) (fds : List ℕ) (t : Trace)
    → open_fds t ≡ new_fd ∷ fd ∷ fds
    → let run = answer os fd new_fd t in EndsStream fds (failures t) run.0 run.1
unfolding answer
answer-Ends os fd new_fd fds t h = ground arith

-- How the way to a connection may end.
abbrev pub Accepts : ℕ → List ℕ → ℕ → Outcome Status → Trace → Type 0
Accepts fd fds errors (returns (nonneg new_fd)) t' =
    (open_fds t' ≡ new_fd ∷ fd ∷ fds) × (failures t' ≡ errors)
Accepts fd fds errors (returns minus_one) t' = (open_fds t' ≡ fds) × (failures t' ≡ suc errors)
Accepts fd fds errors _ t' = ⊥

accept_stream-Accepts :
    (os : Os) (fd : ℕ) (fds : List ℕ) (t : Trace)
    → open_fds t ≡ fd ∷ fds
    → let run = accept_stream os fd t in Accepts fd fds (failures t) run.0 run.1
unfolding accept_stream
accept_stream-Accepts os fd fds t h = ground arith

serve_stream-Ends :
    (os : Os) (fd : ℕ) (fds : List ℕ) (t : Trace)
    → open_fds t ≡ fd ∷ fds
    → let run = serve_stream os fd t in EndsStream fds (failures t) run.0 run.1
unfolding serve_stream
serve_stream-Ends os fd fds t h =
    bind_post (Accepts fd fds (failures t)) (EndsStream fds (failures t)) (answer_stream os fd)
      answered (λ n u k. k) (λ c u k. k) (λ u k. absurd k) (λ u k. k) (accept_stream os fd t)
      (accept_stream-Accepts os fd fds t h)
  where
    answered :
        (a : Status) (u : Trace)
        → Accepts fd fds (failures t) (returns a) u
        → let run = answer_stream os fd a u in EndsStream fds (failures t) run.0 run.1
    answered minus_one u k = unfold answer_stream in k
    answered (nonneg new_fd) u k =
        unfold answer_stream in rw (← k.1) (answer-Ends os fd new_fd fds u k.0)

-- The server for udp returns 0 if no call failed, and -1 after the first call that failed; either
-- way it has closed its socket. Undefined behaviour is met only when uptime gives no line, or when
-- recvfrom fails or fills its 100 bytes: the result of recvfrom is used as an index unchecked.
pub run_server_udp :
    (os : Os) (t : Trace)
    → let run = run_server os sock_dgram t in EndsDatagram (open_fds t) (failures t) run.0 run.1
unfolding run_server
run_server_udp os t =
    bind_post (Opens t) (EndsDatagram (open_fds t) (failures t)) (serve os sock_dgram) served
      (λ n u h. h) (λ c u h. h) (λ u h. absurd h) (λ u h. h) (open_bound os sock_dgram t)
      (open_bound-Opens os sock_dgram t)
  where
    served :
        (a : Status) (u : Trace)
        → Opens t (returns a) u
        → let run = serve os sock_dgram a u in EndsDatagram (open_fds t) (failures t) run.0 run.1
    served minus_one u h = unfold serve in h
    served (nonneg fd) u h =
        unfold serve in rw (← h.1) (serve_datagram-Ends os fd (open_fds t) u h.0)

-- The server for tcp returns -1 after the first call that failed, with every descriptor of its own
-- closed, and 0 if none failed; then it has closed the listening socket and left the accepted
-- connection open. Undefined behaviour is met only when uptime gives no line.
pub run_server_tcp :
    (os : Os) (t : Trace)
    → let run = run_server os sock_stream t in EndsStream (open_fds t) (failures t) run.0 run.1
unfolding run_server
run_server_tcp os t =
    bind_post (Opens t) (EndsStream (open_fds t) (failures t)) (serve os sock_stream) served
      (λ n u h. h) (λ c u h. h) (λ u h. absurd h) (λ u h. h) (open_bound os sock_stream t)
      (open_bound-Opens os sock_stream t)
  where
    served :
        (a : Status) (u : Trace)
        → Opens t (returns a) u
        → let run = serve os sock_stream a u in EndsStream (open_fds t) (failures t) run.0 run.1
    served minus_one u h = unfold serve in h
    served (nonneg fd) u h = unfold serve in rw (← h.1) (serve_stream-Ends os fd (open_fds t) u h.0)
