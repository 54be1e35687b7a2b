-- ===== src/Net/Reached.antt =====
-- What the clients tcp/shutdown/client.c, sockets/setsockopt/client.c and
-- networking-functions/connect/main.c have done when they end.
use c_examples.Base.{
  ℕ, ◌≡◌, refl, ap, sym, ◌∙◌, Option, some, some-cancel, List, [], ◌∷◌, ◌++◌, map, append_assoc,
  append-nil,
}
use c_examples.Base.Run.{Run, returns, ◌>>=◌, >>=-eq-returns, require-eq-returns, returns-injective}
use mathlib.Core.Path.{subst}
use c_examples.Cli.Strto.{Str}
use c_examples.Cli.Numbers
use c_examples.Cli.Getopt.{CommandLine, IsScanned, operands}
use c_examples.Cli.TcpClient as CliClient
use c_examples.Cli.TcpClient.{tcp_client-arguments}
use c_examples.Net.Address.{SocketType, sock_stream, SockaddrStorage, System, IsOrdered}
use c_examples.Net.Sockets.{Socket, socket_connect}
use c_examples.Net.Names.{Named, socket_connect-Connected}
use c_examples.Net.Setup.{
  open_socket, open_socket-eq-returns, IsParsed, IsParsed-operands, parse_in_port_t_small,
}
use c_examples.Net.TcpClient as Tcp
use c_examples.Net.SetsockoptClient as Setsockopt
use c_examples.Net.Connect as Connect
use c_examples.Net.Connect.{Reading, byte, failed, read_loop}
use c_examples.Serial.Effects.{World, Log, shut_wr, printed, closed, socket_close, shutdown_socket}

-- A socket of a type, connected to the address and the port that the two operands name, and of the
-- family of this address.
abbrev pub ConnectedTo : System → SocketType → List Str → Socket → Type 0
ConnectedTo sys type (address ∷ port_str ∷ []) s =
    (port : ℕ) × (peer : SockaddrStorage × ℕ) × (Numbers.parse_in_port_t port_str ≡ returns port)
    × (s.peer ≡ some peer)
    × Named sys address port peer
    × (s.domain ≡ peer.0.ss_family)
    × (s.type ≡ type)
ConnectedTo sys type _ s = ⊥

connected_socket :
    {R : Type 0} (sys : System) (order : IsOrdered sys) (a : CommandLine)
    (arguments : Run (Option Str × ℕ)) (type : SocketType) (then : Socket → Run R) {r : R}
    → IsParsed a arguments
    → open_socket sys type arguments (λ s addr port. socket_connect sys s addr port >>= then)
      ≡ returns r
    → (s : Socket) × ConnectedTo sys type (operands a) s × (then s ≡ returns r)
connected_socket sys order a arguments type then parsed e =
    let (address, port, addr, s, got, converted, created, e) =
      open_socket-eq-returns sys type arguments _ e in
    let (address2, port_str, split, same, number) =
      IsParsed-operands a arguments parsed _ port got in
    let (t, connect, e) = >>=-eq-returns (socket_connect sys s addr port) then e in
    let small = parse_in_port_t_small port_str port number in
    let (peer, text, is, named, family) =
      socket_connect-Connected sys order address port small s addr converted connect in
    let there : ConnectedTo sys type (address ∷ port_str ∷ []) t = (
      port,
      peer,
      number,
      ap (λ t. t.peer) is,
      named,
      ap (λ t. t.domain) is ∙ ap (λ s. s.domain) created ∙ sym family,
      ap (λ t. t.type) is ∙ ap (λ s. s.type) created,
    ) in
    let operands_are = ap (λ x. x ∷ port_str ∷ []) (some-cancel same) ∙ sym split in
    (t, subst (λ l. ConnectedTo sys type l t) operands_are there, e)

-- What a read of bytes, one at a time, comes to.
bytes_read :
    (rs : List Reading) (log log2 : Log)
    → read_loop rs log ≡ returns log2
    → (bytes : List ℕ) × (rs ≡ map byte bytes) × (log2 ≡ log ++ map (λ ch. printed (ch ∷ [])) bytes)
unfolding read_loop
bytes_read [] log log2 e = ([], refl, returns-injective e ∙ sym (append-nil log))
bytes_read (byte ch ∷ rs) log log2 e =
    let (bytes, h, k) = bytes_read rs (log ++ printed (ch ∷ []) ∷ []) log2 e in
    (ch ∷ bytes, ap (◌∷◌ (byte ch)) h, k ∙ append_assoc log (printed (ch ∷ []) ∷ []) _)
bytes_read (failed ∷ rs) log log2 e = absurd (cc e)

abbrev paired : Socket → Run Log → Run (Socket × Log)
paired s m = m >>= λ log. returns (s, log)

module _ (v : World) where
  closes_last :
      (t : Socket) (log : Log) {s : Socket} {log2 : Log}
      → paired t (socket_close v t.sockfd log) ≡ returns (s, log2)
      → (s ≡ t) × (log2 ≡ log ++ closed t.sockfd ∷ [])
  unfolding socket_close
  closes_last t log e =
      let (log3, shut, k) = >>=-eq-returns (socket_close v t.sockfd log) _ e in
      let is = returns-injective k in
      let (closes, closing_log) = require-eq-returns (v.closes t.sockfd) _ shut in
      (ap (λ p. p.0) is, ap (λ p. p.1) is ∙ returns-injective closing_log)

  module _ (sys : System) (order : IsOrdered sys) (a : CommandLine) (scanned : IsScanned a) where
    -- sockets/setsockopt/client.c connects to what its operands name, and closes the socket.
    pub setsockopt_client-ConnectedTo :
        (s : Socket) (log : Log)
        → Setsockopt.main sys v a ≡ returns (s, log)
        → ConnectedTo sys sock_stream (operands a) s × (log ≡ closed s.sockfd ∷ [])
    unfolding Setsockopt.main Setsockopt.arguments Setsockopt.convert_address
        Setsockopt.socket_create Setsockopt.socket_connect Setsockopt.socket_close open_socket
    setsockopt_client-ConnectedTo s log e =
        let (t, there, e) =
          connected_socket sys order a (CliClient.arguments a) sock_stream _
            (tcp_client-arguments a scanned) e in
        let (is, log_is) = closes_last t [] e in
        (
          subst (ConnectedTo sys sock_stream (operands a)) (sym is) there,
          log_is ∙ ap (λ s. closed s.sockfd ∷ []) (sym is),
        )

    -- tcp/shutdown/client.c connects to what its operands name, shuts the socket for writing, and
    -- closes it.
    pub tcp_client-ConnectedTo :
        (s : Socket) (log : Log)
        → Tcp.main sys v a ≡ returns (s, log)
        → ConnectedTo sys sock_stream (operands a) s
          × (log ≡ shut_wr s.sockfd ∷ closed s.sockfd ∷ [])
    unfolding Tcp.main Tcp.shutdown_socket Tcp.socket_close shutdown_socket open_socket
    tcp_client-ConnectedTo s log e =
        let (t, there, e) =
          connected_socket sys order a (CliClient.arguments a) sock_stream _
            (tcp_client-arguments a scanned) e in
        let (log2, shut, e) = >>=-eq-returns (shutdown_socket v shut_wr t.sockfd []) _ e in
        let (shuts, shut_log) = require-eq-returns (v.shuts t.sockfd) _ shut in
        let (is, log_is) = closes_last t log2 e in
        (
          subst (ConnectedTo sys sock_stream (operands a)) (sym is) there,
          log_is
              ∙ ap (λ l. l ++ closed t.sockfd ∷ []) (returns-injective shut_log)
              ∙ ap (λ s. shut_wr s.sockfd ∷ closed s.sockfd ∷ []) (sym is),
        )

    -- Where `ntohs` undoes `htons` and `optind` is at most `argc`: whenever networking-
    -- functions/connect returns, it had two operands, an address and a port, its socket, of the
    -- family of the address, was connected to exactly them, no `read` failed, every byte read was
    -- printed, in order, and the socket was closed.
    pub connect_main-ConnectedTo :
        (readings : List Reading) (s : Socket) (log : Log)
        → Connect.main sys v a readings ≡ returns (s, log)
        → ConnectedTo sys sock_stream (operands a) s
          × (bytes : List ℕ) × (readings ≡ map byte bytes)
          × (log ≡ map (λ ch. printed (ch ∷ [])) bytes ++ closed s.sockfd ∷ [])
    unfolding Connect.main Connect.arguments Connect.convert_address Connect.socket_create
        Connect.socket_connect Connect.socket_close open_socket
    connect_main-ConnectedTo readings s log e =
        let (t, there, e) =
          connected_socket sys order a (CliClient.arguments a) sock_stream _
            (tcp_client-arguments a scanned) e in
        let (log2, loop, e) = >>=-eq-returns (read_loop readings []) _ e in
        let (bytes, are, log2_is) = bytes_read readings [] log2 loop in
        let (is, log_is) = closes_last t log2 e in
        (
          subst (ConnectedTo sys sock_stream (operands a)) (sym is) there,
          bytes,
          are,
          log_is
              ∙ ap (λ l. l ++ closed t.sockfd ∷ []) log2_is
              ∙ ap (λ s. map (λ ch. printed (ch ∷ [])) bytes ++ closed s.sockfd ∷ []) (sym is),
        )
