-- ===== src/Net/Served.antt =====
-- The servers, from the command line to their end.
use c_examples.Base.{ℕ, ◌≡◌, refl, ap, sym, ◌∙◌, Bool, true, false, some, List, [], ◌∷◌, ◌++◌}
use c_examples.Base.Run.{
  Run, returns, ◌>>=◌, ◌>>◌, >>=-eq-returns, require-eq-returns, returns-injective,
}
use c_examples.Cli.Strto.{Str, ℤ}
use c_examples.Cli.Getopt.{CommandLine, IsScanned, operands}
use c_examples.Cli.TcpServer
use c_examples.Cli.TcpServer.{tcp_server-arguments}
use c_examples.Cli.Bind as CliBind
use c_examples.Cli.Bind.{bind-arguments}
use mathlib.Core.Path.{subst}
use c_examples.Net.Address.{Family, SocketType, sock_stream, System, IsOrdered}
use c_examples.Net.Sockets.{
  Socket, fresh, listening, start_listening, setup_signal_handler, reuse_address,
}
use c_examples.Net.Setup.{open_socket}
use c_examples.Net.Serving.{BoundTo, fresh_with, bound_socket}
use c_examples.Net.TcpServer as Tcp
use c_examples.Net.SetsockoptServer as Setsockopt
use c_examples.Net.Bind
use c_examples.Serial.Effects.{World, Log, shut_rd, shut_rdwr, closed, socket_close}
use c_examples.Serial.Loop.{Accept, effects, when_ok}
use c_examples.Serial.Servers.{shutdown_main, setsockopt_main}
use c_examples.Serial.Runs.{all_accepted, shutdown_main-when_ok, setsockopt_main-when_ok}

-- A bound socket that listens with a backlog.
abbrev pub ListensAt : System → ℤ → Bool → List Str → Socket → Type 0
ListensAt sys backlog reuse l s =
    BoundTo sys sock_stream l s × (s.reuse ≡ reuse) × (s.backlog ≡ some backlog)

pub when_ok-eq-returns : (b : Bool) (l log : Log) → when_ok b l ≡ returns log → log ≡ l
when_ok-eq-returns true l log e = returns-injective e
when_ok-eq-returns false l log e = absurd (cc e)

when_ok_passed : (b : Bool) (l log : Log) → when_ok b l ≡ returns log → b ≡ true
when_ok_passed true l log e = refl
when_ok_passed false l log e = absurd (cc e)

abbrev paired : Socket → Run Log → Run (Socket × Log)
paired s serve = serve >>= λ log. returns (s, log)

abbrev pub listener : Socket → ℤ → Socket
listener s backlog = record s { backlog = some backlog; lines = s.lines ++ listening ∷ [] }

listener-BoundTo :
    (sys : System) (backlog : ℤ) (type : SocketType) (l : List Str) (s : Socket)
    → BoundTo sys type l s
    → BoundTo sys type l (listener s backlog)
listener-BoundTo sys backlog type [] s h = h
listener-BoundTo sys backlog type (x ∷ []) s h = h
listener-BoundTo sys backlog type (x ∷ y ∷ []) s h = h
listener-BoundTo sys backlog type (x ∷ y ∷ z ∷ l) s h = h

-- Behind the binding.
pub listens_then_serves :
    (sys : System) (backlog : ℤ) (l : List Str) (s : Socket) (serve : ℕ → Run Log) {t : Socket}
    {log : Log}
    → BoundTo sys sock_stream l s
    → (start_listening sys s backlog >>= λ s. setup_signal_handler sys >> paired s (serve s.sockfd))
      ≡ returns (t, log)
    → ListensAt sys backlog s.reuse l t × (serve t.sockfd ≡ returns log)
unfolding start_listening setup_signal_handler
listens_then_serves sys backlog l s serve {t} {log} there e =
    let (u, started, e) = >>=-eq-returns (start_listening sys s backlog) _ e in
    let (listens, started) = require-eq-returns (sys.listens s.sockfd backlog) _ started in
    let (handles, e) = require-eq-returns sys.handles _ e in
    let (log2, served, k) = >>=-eq-returns (serve u.sockfd) _ e in
    let is = returns-injective k in
    let t_is : listener s backlog ≡ t = sym (ap (λ p. p.0) is ∙ returns-injective started) in
    (
      subst (ListensAt sys backlog s.reuse l) t_is
          (listener-BoundTo sys backlog sock_stream l s there, refl, refl),
      ap (λ p. serve p.0.sockfd) is ∙ served ∙ ap (λ p. returns p.1) (sym is),
    )

reuse_address-eq :
    (sys : System) (fd : ℕ) (domain : Family) (t : Socket)
    → reuse_address sys (fresh fd domain sock_stream) ≡ returns t
    → t ≡ fresh_with true fd domain sock_stream
unfolding reuse_address
reuse_address-eq sys fd domain t e = returns-injective ((require-eq-returns (sys.reuses fd) _ e).1)

module _ (sys : System) (v : World) (order : IsOrdered sys)
    (closing : (fd : ℕ) → v.closes fd ≡ true) (a : CommandLine) (scanned : IsScanned a)
    (rounds : List Accept) where
  -- Where `close` succeeds, `ntohs` undoes `htons` and `optind` is at most `argc`: whenever
  -- tcp/shutdown/server.c returns, it had two operands, an address of a family and a port, and its
  -- socket, of this family, was bound to exactly them, with the length of this family, and listened
  -- with SOMAXCONN; each client accepted, and at last its own socket, has been shut and closed.
  pub tcp_main-ListensAt :
      (s : Socket) (log : Log)
      → Tcp.main sys v a rounds ≡ returns (s, log)
      → ListensAt sys sys.somaxconn false (operands a) s
        × (log
            ≡ effects (λ fd es. shut_rd fd ∷ closed fd ∷ []) rounds
              ++ shut_rdwr s.sockfd ∷ closed s.sockfd ∷ [])
  unfolding Tcp.main open_socket
  tcp_main-ListensAt s log e =
      let (t, there, reuse, e) =
        bound_socket sys order a (TcpServer.arguments a) sock_stream returns false _
          (tcp_server-arguments a scanned) (λ fd domain t e. returns-injective e) e in
      let (there, served) =
        listens_then_serves sys sys.somaxconn (operands a) t (λ fd. shutdown_main v fd rounds) there
          e in
      (
        subst (λ reuse. ListensAt sys sys.somaxconn reuse (operands a) s) reuse there,
        when_ok-eq-returns _ _ log (sym (shutdown_main-when_ok v closing s.sockfd rounds) ∙ served),
      )

  pub setsockopt_main-ListensAt :
      (s : Socket) (log : Log)
      → Setsockopt.main sys v a rounds ≡ returns (s, log)
      → ListensAt sys sys.somaxconn true (operands a) s
        × (all_accepted rounds ≡ true)
        × (log ≡ effects (λ fd es. closed fd ∷ []) rounds ++ closed s.sockfd ∷ [])
  unfolding Setsockopt.main open_socket Setsockopt.arguments Setsockopt.convert_address
      Setsockopt.socket_create Setsockopt.socket_bind Setsockopt.start_listening
      Setsockopt.setup_signal_handler
  setsockopt_main-ListensAt s log e =
      let (t, there, reuse, e) =
        bound_socket sys order a (TcpServer.arguments a) sock_stream (reuse_address sys) true _
          (tcp_server-arguments a scanned) (reuse_address-eq sys) e in
      let (there, served) =
        listens_then_serves sys sys.somaxconn (operands a) t (λ fd. setsockopt_main v fd rounds)
          there e in
      let served = sym (setsockopt_main-when_ok v closing s.sockfd rounds) ∙ served in
      (
        subst (λ reuse. ListensAt sys sys.somaxconn reuse (operands a) s) reuse there,
        when_ok_passed _ _ log served,
        when_ok-eq-returns _ _ log served,
      )

  pub bind_main-BoundTo :
      (s : Socket) (log : Log)
      → Bind.main sys v a ≡ returns (s, log)
      → BoundTo sys sock_stream (operands a) s × (log ≡ closed s.sockfd ∷ [])
  unfolding Bind.main open_socket Bind.convert_address Bind.socket_create Bind.socket_bind
      Bind.socket_close socket_close
  bind_main-BoundTo s log e =
      let (t, there, reuse, e) =
        bound_socket sys order a (CliBind.arguments a) sock_stream returns false _
          (bind-arguments a scanned) (λ fd domain t e. returns-injective e) e in
      let (log2, shut, k) = >>=-eq-returns (socket_close v t.sockfd []) _ e in
      let is = returns-injective k in
      let (closes, closing_log) = require-eq-returns (v.closes t.sockfd) _ shut in
      (
        subst (BoundTo sys sock_stream (operands a)) (sym (ap (λ p. p.0) is)) there,
        ap (λ p. p.1) is
            ∙ returns-injective closing_log
            ∙ ap (λ s. closed s.sockfd ∷ []) (sym (ap (λ p. p.0) is)),
      )
