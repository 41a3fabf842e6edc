-- ===== src/Sockets/Examples.antt =====
-- The theorems about the socket programs at concrete systems.
use myapue.Base.{◌≡◌, refl, [], ◌∷◌}
use myapue.Posix.{Os, Call, ok, fail, returns}
use myapue.Sockets.InitServer
use myapue.Sockets.InitServer.{init_server, Opens, init_server-Opens}
use myapue.Sockets.UniqueServer
use myapue.Sockets.UniqueServer.{serve-Serves}
use myapue.Sockets.TimeClient
use myapue.Sockets.TimeServer
use myapue.Sockets.Retry
use myapue.Sockets.SendFd

-- Every call succeeds; descriptors count up, and a message has 5 bytes.
abbrev willing : Os
willing t (Call.socket _ _) = ok 3 []
willing t (Call.accept _) = ok 4 []
willing t (Call.open_file _) = ok 5 []
willing t (Call.recv _ _) = ok 5 []
willing t (Call.write _ _) = ok 10 []
willing t c = ok 0 (104 ∷ [])

-- The same, but the listening fails.
abbrev unlistening : Os
unlistening t (Call.listen _ _) = fail 98
unlistening t c = willing t c

-- No connection is accepted by the peer.
abbrev unreachable : Os
unreachable t (Call.connect _ _) = fail 111
unreachable t c = willing t c

init_server_error : (init_server unlistening 2 1 "addr" 10 []).0 ≡ returns (InitServer.error 98)
unfolding init_server
init_server_error = refl

init_server-Opens_example :
    let run = init_server unlistening 2 1 "addr" 10 [] in Opens [] run.0 run.1
init_server-Opens_example = init_server-Opens unlistening 2 1 "addr" 10 []

serve-Serves_example :
    let run = UniqueServer.serve willing 2 3 [] in UniqueServer.Serves 3 2 [] run.0 run.1
serve-Serves_example = serve-Serves willing 2 3 []

time_client-Ends_example :
    let run = TimeClient.main willing 2 "udp" [] in TimeClient.Ends run.0 run.1
time_client-Ends_example = TimeClient.time_client-Ends willing 2 "udp"

run_server_udp_example :
    let run = TimeServer.run_server willing TimeServer.sock_dgram [] in
    TimeServer.EndsDatagram [] 0 run.0 run.1
run_server_udp_example = TimeServer.run_server_udp willing []

connet_retry-Connects_example :
    let run = Retry.connet_retry unreachable 3 "addr" [] in Retry.Connects [] run.0 run.1
connet_retry-Connects_example = Retry.connet_retry-Connects unreachable 3 "addr" []

sendfd_server-Ends_example :
    let run = SendFd.server_main willing [] in SendFd.ServerEnds [] run.0 run.1
sendfd_server-Ends_example = SendFd.sendfd_server-Ends willing []
