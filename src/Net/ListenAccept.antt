-- ===== src/Net/ListenAccept.antt =====
-- networking-functions/listen-accept/main.c.
use c_examples.Base.{ℕ, List}
use c_examples.Base.Run.{Run, returns, ◌>>=◌, ◌>>◌}
use c_examples.Cli.Strto.{Str, ℤ}
use c_examples.Cli.Getopt.{CommandLine}
use c_examples.Net.Address
use c_examples.Net.Address.{
  Family, af_unspec, af_inet, af_inet6, af_unix, SocketType, sock_stream, sock_dgram, sock_raw,
  sock_seqpacket, SockaddrStorage, System, given, zeroed,
}
use c_examples.Net.Sockets
use c_examples.Net.Sockets.{Socket, with_port, reuse_address, socket_connect}
use c_examples.Serial.Effects.{World, Log}
use c_examples.Serial.Loop.{Accept}
use c_examples.Serial.Servers.{listen_main}
use c_examples.Cli.ListenAccept.{arguments}

unfoldable pub convert_address : System → Str → Run SockaddrStorage
convert_address = Address.convert_address

unfoldable pub socket_create : System → Family → SocketType → Run Socket
socket_create = Sockets.socket_create

unfoldable pub socket_bind : System → Socket → SockaddrStorage → ℕ → Run Socket
socket_bind = Sockets.socket_bind

unfoldable pub start_listening : System → Socket → ℤ → Run Socket
start_listening = Sockets.start_listening

unfoldable pub setup_signal_handler : System → Run (Unit {0})
setup_signal_handler = Sockets.setup_signal_handler

module _ (sys : System) (v : World) where
  unfoldable pub main : CommandLine → List Accept → Run (Socket × Log)
  main a rounds = arguments a >>= λ (address, message, port, backlog). given address >>= λ address.
      convert_address sys address >>= λ addr. socket_create sys addr.ss_family sock_stream >>= λ s.
      socket_bind sys s addr port >>= λ s. start_listening sys s backlog >>= λ s.
      setup_signal_handler sys
      >> (given message >>= λ message.
          listen_main v message s.sockfd rounds >>= λ log. returns (s, log))
