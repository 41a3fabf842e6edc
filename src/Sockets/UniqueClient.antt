-- ===== src/Sockets/UniqueClient.antt =====
-- 17.uds/05_uniquecon_client.c: client_connect and main.
use Prim.Native.String.{String}
use myapue.Base.{ℕ, suc, ◌+◌, if◌then◌else◌, ◌≡◌, arith, List, [], ◌∷◌, length}
use myapue.Posix.{
  Os, Prog, Trace, Status, nonneg, minus_one, pure, ◌>>=◌, ◌>>◌, call, print, failed,
}
use myapue.Posix.{value, Call, Outcome, returns}
use myapue.Posix.Ledger.{open_fds, failures}

abbrev pub client_name : String
client_name = "liucong.unique_connections_client"

abbrev pub server_name : String
server_name = "liucong.unique_connections_server"

-- "I am liucong"
abbrev pub greeting : List ℕ
greeting = 73 ∷ 32 ∷ 97 ∷ 109 ∷ 32 ∷ 108 ∷ 105 ∷ 117 ∷ 99 ∷ 111 ∷ 110 ∷ 103 ∷ []

module _ (os : Os) where
  pub give_up : String → ℕ → Prog Status
  give_up message fd = do print os message; call os (Call.close fd); pure minus_one

  pub client_connect : String → String → Prog Status
  unfolding give_up
  client_connect server client = do
    a ← call os (Call.socket 1 1)
    if failed a then (do print os "socket"; pure minus_one) else do
      call os (Call.unlink client)
      b ← call os (Call.bind (value a) client)
      if failed b then give_up "bind" (value a) else do
        c ← call os (Call.connect (value a) server)
        if failed c then give_up "connect" (value a) else pure (nonneg (value a))

  pub send_greeting : Status → Prog Status
  unfolding give_up
  send_greeting minus_one = pure minus_one
  send_greeting (nonneg fd) = do
    n ← call os (Call.send fd greeting)
    if failed n then give_up "send" fd else pure (nonneg 0)

  pub main : Prog Status
  unfolding client_connect send_greeting
  main = do fd ← client_connect server_name client_name; send_greeting fd

-- How main may end: 0 with the connection open and no failed call, or -1 after one failed call
-- with no descriptor of its own left open.
abbrev pub Ends : Trace → Outcome Status → Trace → Type 0
Ends t (returns (nonneg n)) t' =
    (n ≡ 0) × (length (open_fds t') ≡ length (open_fds t) + 1) × (failures t' ≡ failures t)
Ends t (returns minus_one) t' = (open_fds t' ≡ open_fds t) × (failures t' ≡ suc (failures t))
Ends t _ t' = ⊥

-- Whatever the system answers, the client's main returns: 0 if no call failed, and then its
-- connection is the one descriptor left open; -1 after the first failed call, and then it has
-- closed the descriptor it had.
pub client_main-Ends : (os : Os) (t : Trace) → let run = main os t in Ends t run.0 run.1
unfolding main
client_main-Ends os t = ground arith
