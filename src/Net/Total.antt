-- ===== src/Net/Total.antt =====
-- That the servers finish, and that they serve where the system lets them.
use c_examples.Base.{ℕ, List, [], ◌∷◌, ◌++◌}
use c_examples.Base.Run.{
  Run, returns, exits, failure, ◌>>=◌, ◌>>◌, require, or_exit, or_exit-Finishes, require-Finishes,
  Finishes, Finishes-then,
}
use c_examples.Io.Stream.{Event}
use c_examples.Cli.Getopt.{CommandLine, IsScanned}
use c_examples.Cli.TcpServer
use c_examples.Cli.TcpServer.{tcp_server-arguments, expected}
use c_examples.Net.Address.{
  Family, af_inet, af_inet6, af_unix, af_unspec, sock_stream, SockaddrStorage, System,
}
use c_examples.Net.Sockets.{
  Socket, with_port, bind_as, socket_bind, start_listening, setup_signal_handler,
}
use c_examples.Net.Setup.{open_socket, open_socket-Finishes}
use c_examples.Net.TcpServer as Tcp
use c_examples.Serial.Effects.{World, Log, shut_rd, shut_rdwr, socket_close, shutdown_socket}
use c_examples.Serial.Loop.{Accept, refused, stopped, client, accept_loop}
use c_examples.Serial.Servers.{shutdown_serve, shutdown_main}

accept_loop-Finishes :
    (serve : ℕ → List Event → Log → Run Log)
    → ((fd : ℕ) (es : List Event) (log : Log) → Finishes (serve fd es log))
    → (rs : List Accept) (log : Log) → Finishes (accept_loop serve rs log)
unfolding accept_loop
accept_loop-Finishes serve h [] log = tt
accept_loop-Finishes serve h (refused ∷ rs) log = accept_loop-Finishes serve h rs log
accept_loop-Finishes serve h (stopped ∷ rs) log = tt
accept_loop-Finishes serve h (client fd es ∷ rs) log =
    Finishes-then (serve fd es log) (accept_loop serve rs) (h fd es log)
      (λ log _. accept_loop-Finishes serve h rs log)

module _ (v : World) where
  shut_and_close :
      (how : ℕ → _) (fd : ℕ) (log : Log)
      → Finishes (shutdown_socket v how fd log >>= socket_close v fd)
  unfolding shutdown_socket socket_close
  shut_and_close how fd log =
      Finishes-then (require (v.shuts fd) >> returns (log ++ how fd ∷ [])) _
        (require-Finishes (v.shuts fd) _ tt) (λ log _. require-Finishes (v.closes fd) _ tt)

  shutdown_main-Finishes :
      (sockfd : ℕ) (rounds : List Accept) → Finishes (shutdown_main v sockfd rounds)
  unfolding shutdown_main shutdown_serve
  shutdown_main-Finishes sockfd rounds =
      let looped =
        accept_loop-Finishes (shutdown_serve v) (λ fd es log. shut_and_close shut_rd fd log) rounds
          [] in
      Finishes-then
        (accept_loop (shutdown_serve v) rounds [] >>= shutdown_socket v shut_rdwr sockfd)
        (socket_close v sockfd)
        (Finishes-then (accept_loop (shutdown_serve v) rounds [])
          (shutdown_socket v shut_rdwr sockfd) looped
          (λ log _. require-Finishes (v.shuts sockfd) _ tt))
        (λ log _. require-Finishes (v.closes sockfd) _ tt)

on_family :
    (family : Family) (x y : Run Socket)
    → Finishes x
    → Finishes y
    → Finishes (elim family [ af_inet ↦ x | af_inet6 ↦ y | _ ↦ exits failure ])
on_family af_inet x y h k = h
on_family af_inet6 x y h k = k
on_family af_unix x y h k = tt
on_family af_unspec x y h k = tt

module _ (sys : System) where
  bind_as-Finishes :
      (s : Socket) (addr : SockaddrStorage) (addr_len : ℕ) (vaddr : List ℕ) (port : ℕ)
      → Finishes (bind_as sys s addr addr_len vaddr port)
  bind_as-Finishes s addr addr_len vaddr port =
      Finishes-then (or_exit (sys.inet_ntop addr.ss_family vaddr)) _ (or_exit-Finishes _)
        (λ addr_str _. require-Finishes (sys.binds s.sockfd addr addr_len) _ tt)

  socket_bind-Finishes :
      (s : Socket) (addr : SockaddrStorage) (port : ℕ) → Finishes (socket_bind sys s addr port)
  unfolding socket_bind
  socket_bind-Finishes s addr port =
      on_family addr.ss_family _ _
        (bind_as-Finishes s (with_port addr (sys.htons port)) 16 addr.sin_addr port)
        (bind_as-Finishes s (with_port addr (sys.htons port)) 28 addr.sin6_addr port)

  module _ (v : World) (a : CommandLine) (scanned : IsScanned a) (rounds : List Accept) where
    -- Where `optind` is at most `argc`, tcp/shutdown/server.c does nothing undefined, and returns or
    -- exits when its list of accepted connections ends: no missing operand is used as an address,
    -- whatever the calls of the system answer.
    pub tcp_main-Finishes : Finishes (Tcp.main sys v a rounds)
    unfolding Tcp.main open_socket start_listening setup_signal_handler
    tcp_main-Finishes =
        open_socket-Finishes a (TcpServer.arguments a) (tcp_server-arguments a scanned) sys
          sock_stream _
          (λ s addr port.
            Finishes-then (socket_bind sys s addr port) _ (socket_bind-Finishes s addr port) (λ t _.
              Finishes-then (start_listening sys t sys.somaxconn) _
                (require-Finishes (sys.listens t.sockfd sys.somaxconn) _ tt)
                (λ u _. require-Finishes sys.handles _ (
                  Finishes-then (shutdown_main v u.sockfd rounds) _
                    (shutdown_main-Finishes v u.sockfd rounds) (λ log _. tt)))))
