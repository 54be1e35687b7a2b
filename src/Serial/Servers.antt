-- ===== src/Serial/Servers.antt =====
-- The servers of one client at a time, from their loop over `accept` to their end.
use c_examples.Base.{ℕ, ◌+◌, List, [], ◌∷◌, ◌++◌}
use c_examples.Base.Run.{Run, returns, exits, failure, ◌>>=◌, ◌>>◌, require}
use c_examples.Io.Stream.{Event}
use c_examples.Serial.Effects.{
  shut_rd, shut_rdwr, written, World, Log, socket_close, shutdown_socket,
}
use c_examples.Serial.Words
use c_examples.Serial.Loop.{Accept, refused, stopped, client, accept_loop}

module _ (v : World) where
  -- domain-socket/read-write/server.c and domain-socket/send-recv/server.c.
  unfoldable pub domain_serve : ℕ → List Event → Log → Run Log
  unfolding socket_close Words.handle_connection
  domain_serve client_sockfd es log =
      Words.handle_connection es log >>= socket_close v client_sockfd

  unfoldable pub domain_main : ℕ → List Accept → Run Log
  unfolding accept_loop domain_serve socket_close
  domain_main sockfd rounds = accept_loop domain_serve rounds [] >>= socket_close v sockfd

  -- tcp/shutdown/server.c, whose `handle_connection` does nothing.
  unfoldable pub shutdown_serve : ℕ → List Event → Log → Run Log
  unfolding socket_close shutdown_socket
  shutdown_serve client_sockfd es log =
      shutdown_socket v shut_rd client_sockfd log >>= socket_close v client_sockfd

  unfoldable pub shutdown_main : ℕ → List Accept → Run Log
  unfolding accept_loop shutdown_serve shutdown_socket socket_close
  shutdown_main sockfd rounds =
      accept_loop shutdown_serve rounds []
      >>= shutdown_socket v shut_rdwr sockfd
      >>= socket_close v sockfd

  -- `handle_connection` of networking-functions/listen-accept/main.c, from byte `i` of the message on.
  unfoldable pub handle_connection_from : ℕ → ℕ → List ℕ → Log → Run Log
  handle_connection_from i client_sockfd [] log = returns log
  handle_connection_from i client_sockfd (c ∷ message) log =
      require (v.writes client_sockfd i)
      >> handle_connection_from (i + 1) client_sockfd message (log ++ written client_sockfd c ∷ [])

  unfoldable pub listen_serve : List ℕ → ℕ → List Event → Log → Run Log
  unfolding handle_connection_from socket_close
  listen_serve message client_sockfd es log =
      handle_connection_from 0 client_sockfd message log >>= socket_close v client_sockfd

  unfoldable pub listen_main : List ℕ → ℕ → List Accept → Run Log
  unfolding accept_loop listen_serve socket_close
  listen_main message sockfd rounds =
      accept_loop (listen_serve message) rounds [] >>= socket_close v sockfd

  -- sockets/setsockopt/server.c, where -1 from `accept` ends the process, whatever the reason.
  unfoldable pub setsockopt_loop : ℕ → List Accept → Log → Run Log
  unfolding socket_close
  setsockopt_loop sockfd [] log = returns log
  setsockopt_loop sockfd (refused ∷ rs) log = exits failure
  setsockopt_loop sockfd (stopped ∷ rs) log = exits failure
  setsockopt_loop sockfd (client fd es ∷ rs) log =
      socket_close v fd log >>= setsockopt_loop sockfd rs

  unfoldable pub setsockopt_main : ℕ → List Accept → Run Log
  unfolding setsockopt_loop socket_close
  setsockopt_main sockfd rounds = setsockopt_loop sockfd rounds [] >>= socket_close v sockfd
