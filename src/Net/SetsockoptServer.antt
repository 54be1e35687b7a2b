-- ===== src/Net/SetsockoptServer.antt =====
-- sockets/setsockopt/server.c.
use c_examples.Base.{ℕ, Option, List}
use c_examples.Base.Run.{Run, returns, ◌>>=◌, ◌>>◌}
use c_examples.Cli.Strto.{Str, ℤ}
use c_examples.Cli.Getopt.{CommandLine}
use c_examples.Net.Address
use c_examples.Net.Address.{
  Family, af_unspec, af_inet, af_inet6, af_unix, SocketType, sock_stream, sock_dgram, sock_raw,
  sock_seqpacket, SockaddrStorage, System, given, zeroed,
}
use c_examples.Net.Sockets
use c_examples.Net.Sockets.{Socket, with_port, reuse_address, socket_connect}
use c_examples.Serial.Effects.{World, Log}
use c_examples.Serial.Loop.{Accept}
use c_examples.Serial.Servers.{setsockopt_main}
use c_examples.Cli.TcpServer

unfoldable pub parse_in_port_t : Str → Run ℕ
parse_in_port_t = TcpServer.parse_in_port_t

unfoldable pub parse_arguments : CommandLine → Run (Option Str × Option Str)
parse_arguments = TcpServer.parse_arguments

unfoldable pub handle_arguments : Option Str → Option Str → Run ℕ
handle_arguments = TcpServer.handle_arguments

unfoldable pub arguments : CommandLine → Run (Option Str × ℕ)
arguments = TcpServer.arguments

unfoldable pub convert_address : System → Str → Run SockaddrStorage
convert_address = Address.convert_address

unfoldable pub socket_create : System → Family → SocketType → Run Socket
socket_create = Sockets.socket_create

unfoldable pub socket_bind : System → Socket → SockaddrStorage → ℕ → Run Socket
socket_bind = Sockets.socket_bind

unfoldable pub start_listening : System → Socket → ℤ → Run Socket
start_listening = Sockets.start_listening

unfoldable pub setup_signal_handler : System → Run (Unit {0})
setup_signal_handler = Sockets.setup_signal_handler

module _ (sys : System) (v : World) where
  unfoldable pub main : CommandLine → List Accept → Run (Socket × Log)
  main a rounds = arguments a >>= λ (address, port). given address >>= λ address.
      convert_address sys address >>= λ addr. socket_create sys addr.ss_family sock_stream >>= λ s.
      reuse_address sys s >>= λ s. socket_bind sys s addr port >>= λ s.
      start_listening sys s sys.somaxconn >>= λ s.
      setup_signal_handler sys >> (setsockopt_main v s.sockfd rounds >>= λ log. returns (s, log))
