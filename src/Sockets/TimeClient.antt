-- ===== src/Sockets/TimeClient.antt =====
-- 16.socket/04_timeclient.c. A descriptor that the client gets is closed before it returns.
use Prim.Native.String.{String}
use text.Mathlib.Text.{◌==◌ as str_eq}
use myapue.Base.{ℕ, ◌≤◌, ◌==◌, if◌then◌else◌, Bool, false, ◌≡◌, arith, [], Option, none, some}
use myapue.Posix.{
  Os, Prog, Trace, Status, nonneg, minus_one, pure, ◌>>=◌, ◌>>◌, call, print, failed,
}
use myapue.Posix.{value, Call, Outcome, returns, faults, in_bounds}
use myapue.Posix.Ledger.{open_fds, closes, received}

abbrev pub sock_stream : ℕ
sock_stream = 1

abbrev pub sock_dgram : ℕ
sock_dgram = 2

abbrev pub af_inet : ℕ
af_inet = 2

abbrev pub maxline : ℕ
maxline = 4096

-- The socket type that argv[1] names.
pub type_of : String → Option ℕ
type_of arg =
    if str_eq arg "tcp"
    then some sock_stream
    else if str_eq arg "udp"
    then some sock_dgram
    else none

module _ (os : Os) where
  pub give_up : String → ℕ → Prog Status
  give_up message fd = do print os message; call os (Call.close fd); pure minus_one

  -- A datagram socket first sends an empty message, so that the server learns the address.
  pub announce : ℕ → ℕ → Prog Bool
  announce kind fd =
      if kind == sock_dgram then (do a ← call os (Call.send fd []); pure (failed a)) else pure false

  -- The branches on n; the write of the final 0 is past the buffer when n is MAXLINE.
  pub show : ℕ → ℕ → Prog (Unit {0})
  show n fd =
      if n == 0
      then (do call os (Call.close fd); pure tt)
      else (do in_bounds n maxline; print os "recv"; pure tt)

  pub receive : ℕ → Prog Status
  unfolding give_up show
  receive fd = do
    n ← call os (Call.recv fd maxline)
    if failed n
        then give_up "recv" fd
        else do show (value n) fd; call os (Call.close fd); pure (nonneg 0)

  pub run_client : ℕ → Prog Status
  unfolding announce receive
  run_client kind = do
    call os Call.gethostname
    r ← call os (Call.getaddrinfo kind)
    if failed r then (do print os "getaddrinfo"; pure minus_one) else do
      a ← call os (Call.socket af_inet kind)
      if failed a then (do print os "socket"; pure minus_one) else do
        c ← call os (Call.connect (value a) "my_service_test")
        if failed c then give_up "connect" (value a) else do
          s ← announce kind (value a)
          if s then give_up "send" (value a) else receive (value a)

  pub main : ℕ → String → Prog Status
  unfolding run_client type_of
  main argc arg =
      if argc == 2
      then elim (type_of arg) [ none ↦ pure minus_one | some kind ↦ run_client kind ]
      else pure minus_one

-- How a run that starts with no descriptor may end.
abbrev pub Ends : Outcome Status → Trace → Type 0
Ends (returns (nonneg n)) t' =
    (n ≡ 0) × (open_fds t' ≡ []) × (closes t' ≡ (if received t' == 0 then 2 else 1))
Ends (returns minus_one) t' = open_fds t' ≡ []
Ends faults t' = maxline ≤ received t'
Ends _ t' = ⊥

-- Started with no descriptor open, the client either returns with none open, or it writes past
-- its buffer, and then only because the message received has at least MAXLINE bytes. On a return
-- of 0 it has closed its descriptor once if a message came, and twice if the peer sent nothing.
pub time_client-Ends :
    (os : Os) (argc : ℕ) (arg : String) → let run = main os argc arg [] in Ends run.0 run.1
unfolding main
time_client-Ends os argc arg = ground arith
