-- ===== src/Net/TcpServer.antt =====
-- tcp/shutdown/server.c.
use c_examples.Base.{List}
use c_examples.Base.Run.{Run, returns, ◌>>=◌, ◌>>◌}
use c_examples.Cli.Getopt.{CommandLine}
use c_examples.Net.Address.{sock_stream, System, given, convert_address}
use c_examples.Net.Sockets.{
  Socket, socket_create, socket_bind, start_listening, setup_signal_handler,
}
use c_examples.Serial.Effects.{World, Log}
use c_examples.Serial.Loop.{Accept}
use c_examples.Serial.Servers.{shutdown_main}
use c_examples.Cli.TcpServer.{arguments}

module _ (sys : System) (v : World) where
  unfoldable pub main : CommandLine → List Accept → Run (Socket × Log)
  main a rounds = arguments a >>= λ (address, port). given address >>= λ address.
      convert_address sys address >>= λ addr. socket_create sys addr.ss_family sock_stream >>= λ s.
      socket_bind sys s addr port >>= λ s. start_listening sys s sys.somaxconn >>= λ s.
      setup_signal_handler sys >> (shutdown_main v s.sockfd rounds >>= λ log. returns (s, log))
