-- ===== src/Net/Bind.antt =====
-- networking-functions/bind/main.c.
use c_examples.Base.{ℕ, []}
use c_examples.Base.Run.{Run, returns, ◌>>=◌}
use c_examples.Cli.Strto.{Str}
use c_examples.Cli.Getopt.{CommandLine}
use c_examples.Net.Address
use c_examples.Net.Address.{
  Family, af_unspec, af_inet, af_inet6, af_unix, SocketType, sock_stream, sock_dgram, sock_raw,
  sock_seqpacket, SockaddrStorage, System, given, zeroed,
}
use c_examples.Net.Sockets
use c_examples.Net.Sockets.{
  Socket, with_port, reuse_address, socket_connect, start_listening, setup_signal_handler,
}
use c_examples.Serial.Effects
use c_examples.Serial.Effects.{Effect, World, Log, printed, shut_wr}
use c_examples.Cli.Bind.{arguments}

unfoldable pub convert_address : System → Str → Run SockaddrStorage
convert_address = Address.convert_address

unfoldable pub socket_create : System → Family → SocketType → Run Socket
socket_create = Sockets.socket_create

unfoldable pub socket_bind : System → Socket → SockaddrStorage → ℕ → Run Socket
socket_bind = Sockets.socket_bind

unfoldable pub socket_close : World → ℕ → Log → Run Log
socket_close = Effects.socket_close

module _ (sys : System) (v : World) where
  unfoldable pub main : CommandLine → Run (Socket × Log)
  main a = arguments a >>= λ (address, port). given address >>= λ address.
      convert_address sys address >>= λ addr. socket_create sys addr.ss_family sock_stream >>= λ s.
      socket_bind sys s addr port >>= λ s. socket_close v s.sockfd [] >>= λ log. returns (s, log)
