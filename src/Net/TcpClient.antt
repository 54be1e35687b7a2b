-- ===== src/Net/TcpClient.antt =====
-- tcp/shutdown/client.c.
use c_examples.Base.{ℕ, []}
use c_examples.Base.Run.{Run, returns, ◌>>=◌}
use c_examples.Cli.Getopt.{CommandLine}
use c_examples.Net.Address.{sock_stream, System, given, convert_address}
use c_examples.Net.Sockets.{Socket, socket_create, socket_connect}
use c_examples.Serial.Effects
use c_examples.Serial.Effects.{Effect, World, Log, printed, shut_wr}
use c_examples.Cli.TcpClient.{arguments}

unfoldable pub shutdown_socket : World → (ℕ → Effect) → ℕ → Log → Run Log
shutdown_socket = Effects.shutdown_socket

unfoldable pub socket_close : World → ℕ → Log → Run Log
socket_close = Effects.socket_close

module _ (sys : System) (v : World) where
  unfoldable pub main : CommandLine → Run (Socket × Log)
  main a = arguments a >>= λ (address, port). given address >>= λ address.
      convert_address sys address >>= λ addr. socket_create sys addr.ss_family sock_stream >>= λ s.
      socket_connect sys s addr port >>= λ s. shutdown_socket v shut_wr s.sockfd [] >>= λ log.
      socket_close v s.sockfd log >>= λ log. returns (s, log)
