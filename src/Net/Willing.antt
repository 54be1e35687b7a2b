-- ===== src/Net/Willing.antt =====
-- That the server tcp/shutdown/server.c serves, where the system lets it.
use c_examples.Base.{
  ℕ, ◌≤◌, ◌<◌, ◌^◌, ◌≡◌, refl, ◌∙◌, ◌⊎◌, inl, inr, true, false, none, some, List, [], ◌∷◌, ◌++◌,
  ◌&&◌, leb, arith,
}
use c_examples.Base.Run.{returns, ◌>>=◌}
use mathlib.Core.Path.{subst}
use c_examples.Cli.Strto.{Str, ℤ}
use c_examples.Cli.Decimal.{decimal}
use c_examples.Cli.Parsed.{parse_in_port_t-decimal}
use c_examples.Cli.Getopt.{CommandLine, IsScanned, operands, stops}
use c_examples.Cli.TcpServer
use c_examples.Cli.TcpServer.{tcp_server-arguments, expected}
use c_examples.Net.Address.{
  Family, af_inet, af_inet6, SocketType, sock_stream, SockaddrStorage, System, IsOrdered,
  convert_address,
}
use c_examples.Net.Sockets.{
  Socket, fresh, with_port, bound, socket_create, socket_bind, start_listening,
  setup_signal_handler,
}
use c_examples.Net.Names.{Converted, is_inet, is_inet6, inet, inet6}
use c_examples.Net.Setup.{open_socket}
use c_examples.Net.Served.{ListensAt, listener, tcp_main-ListensAt}
use c_examples.Net.TcpServer as Tcp
use c_examples.Serial.Effects.{World, shut_rd, shut_rdwr, closed}
use c_examples.Serial.Loop.{Accept, effects, all_clients}
use c_examples.Serial.Servers.{shutdown_main}
use c_examples.Serial.Runs.{shutdown_main-when_ok}

le→leb : (a b : ℕ) → a ≤ b → leb a b ≡ true
le→leb a b h = ground arith

-- Every call for a new socket succeeds, with this descriptor.
pub record Willing (sys : System) (fd : ℕ) : Type 0 where
  pub creates : (domain : Family) (type : SocketType) → sys.socket domain type ≡ some fd
  pub has_text :
      (family : Family) (bytes : List ℕ) → (text : Str) × (sys.inet_ntop family bytes ≡ some text)
  pub binding : (addr : SockaddrStorage) (addr_len : ℕ) → sys.binds fd addr addr_len ≡ true
  pub listens : (backlog : ℤ) → sys.listens fd backlog ≡ true
  pub handling : sys.handles ≡ true

-- The text is an address, of IPv4 or of IPv6.
abbrev pub IsAddress : System → Str → Type 0
IsAddress sys address =
    ((bytes : List ℕ) × (sys.inet_pton af_inet address ≡ some bytes))
    ⊎ ((sys.inet_pton af_inet address ≡ none)
        × (bytes : List ℕ) × (sys.inet_pton af_inet6 address ≡ some bytes))

module _ (sys : System) (address : Str) where
  resolved :
      IsAddress sys address
      → (addr : SockaddrStorage) × (convert_address sys address ≡ returns addr)
        × Converted sys address addr
  unfolding convert_address
  resolved (inl (bytes, h)) = (inet bytes, rw (convert_address, h) refl, is_inet bytes h)
  resolved (inr (h, bytes, k)) = (inet6 bytes, rw (convert_address, h, k) refl, is_inet6 bytes k)

  module _ (fd : ℕ) (willing : Willing sys fd) where
    binds :
        (addr : SockaddrStorage) (type : SocketType) (port : ℕ)
        → Converted sys address addr
        → (name : SockaddrStorage × ℕ) × (text : Str) × (socket_bind sys
              (fresh fd addr.ss_family type)
              addr
              port
            ≡ returns (bound (fresh fd addr.ss_family type) name.0 name.1 text port))
    unfolding socket_bind
    binds _ type port (is_inet bytes h) =
        let (text, k) = willing.has_text af_inet bytes in
        let name = with_port (inet bytes) (sys.htons port) in
        ((name, 16), text, rw (k, willing.binding name 16) refl)
    binds _ type port (is_inet6 bytes h) =
        let (text, k) = willing.has_text af_inet6 bytes in
        let name = with_port (inet6 bytes) (sys.htons port) in
        ((name, 28), text, rw (k, willing.binding name 28) refl)

    module _ (v : World) (a : CommandLine) (scanned : IsScanned a) (rounds : List Accept) (n : ℕ)
        (no_option : stops [] a.opts ≡ returns tt) (split : operands a ≡ address ∷ decimal n ∷ [])
        (small : n < 2 ^ 16) where
      taken : TcpServer.arguments a ≡ returns (some address, n)
      unfolding TcpServer.parse_in_port_t
      taken =
          tcp_server-arguments a scanned
          ∙ rw (no_option, split, parse_in_port_t-decimal n, le→leb n 65535 (omega arith)) refl

      reaches_loop :
          IsAddress sys address
          → (t : Socket) × (Tcp.main sys v a rounds
              ≡ (shutdown_main v fd rounds >>= λ log. returns (record t { sockfd = fd }, log)))
      unfolding Tcp.main open_socket start_listening setup_signal_handler socket_create
      reaches_loop is_address =
          let (addr, converts, converted) = resolved is_address in
          let (name, text, bind) = binds addr sock_stream n converted in
          let t = bound (fresh fd addr.ss_family sock_stream) name.0 name.1 text n in
          (
            listener t sys.somaxconn,
            rw
                (
                  taken,
                  converts,
                  willing.creates addr.ss_family sock_stream,
                  bind,
                  willing.listens sys.somaxconn,
                  willing.handling,
                )
                refl,
          )

      -- Where `ntohs` undoes `htons` and `optind` is at most `argc`, the operands are an address and
      -- the decimal of a port below 2^16, no option is given, each call that sets up the socket
      -- succeeds, and so does each `close` and `shutdown`: tcp/shutdown/server.c returns, its socket
      -- has been bound to this address and port and has listened there with SOMAXCONN, and each client,
      -- and at last its own socket, has been shut and closed.
      pub tcp_main_serves :
          IsOrdered sys
          → ((fd : ℕ) → v.closes fd ≡ true)
          → (all_clients (λ fd es. v.shuts fd) rounds && v.shuts fd) ≡ true
          → IsAddress sys address
          → (s : Socket) × (Tcp.main sys v a rounds
              ≡ returns (
                s,
                effects (λ fd es. shut_rd fd ∷ closed fd ∷ []) rounds
                    ++ shut_rdwr fd ∷ closed fd ∷ [],
              ))
            × (s.sockfd ≡ fd)
            × ListensAt sys sys.somaxconn false (address ∷ decimal n ∷ []) s
      tcp_main_serves order closing shutting is_address =
          let (t, reached) = reaches_loop is_address in
          let s : Socket = record t { sockfd = fd } in
          let ends = reached ∙ rw (shutdown_main-when_ok v closing fd rounds, shutting) refl in
          let (there, log) = tcp_main-ListensAt sys v order closing a scanned rounds s _ ends in
          (s, ends, refl, subst (λ l. ListensAt sys sys.somaxconn false l s) split there)
