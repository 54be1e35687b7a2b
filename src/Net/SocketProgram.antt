-- ===== src/Net/SocketProgram.antt =====
-- networking-functions/socket/main.c.
use c_examples.Base.{ℕ, []}
use c_examples.Base.Run.{Run, returns, ◌>>=◌}
use c_examples.Cli.Getopt.{CommandLine}
use c_examples.Net.Address.{Family, SocketType, System}
use c_examples.Net.Sockets
use c_examples.Net.Sockets.{
  Socket, with_port, reuse_address, socket_bind, socket_connect, start_listening,
  setup_signal_handler,
}
use c_examples.Serial.Effects
use c_examples.Serial.Effects.{Effect, World, Log, printed, shut_wr}
use c_examples.Cli.Socket.{arguments}

unfoldable pub socket_create : System → Family → SocketType → Run Socket
socket_create = Sockets.socket_create

unfoldable pub socket_close : World → ℕ → Log → Run Log
socket_close = Effects.socket_close

module _ (sys : System) (v : World) where
  unfoldable pub main : CommandLine → Run (Socket × Log)
  main a = arguments a >>= λ (address_family, socket_type).
      socket_create sys address_family socket_type >>= λ s.
      socket_close v s.sockfd [] >>= λ log. returns (s, log)
