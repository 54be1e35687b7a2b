-- ===== src/Net/Names.antt =====
-- What the set-up of a socket leaves, when it returns.
use c_examples.Base.{ℕ, ◌<◌, ◌^◌, ◌≡◌, refl, sym, Option, none, some, List, arith}
use c_examples.Base.Run.{
  returns, exits, >>=-eq-returns, Finishes, Finishes-then, failure, returns-injective, or_exit,
  or_exit-Finishes, require-eq-returns,
}
use mathlib.Core.Path.{subst}
use c_examples.Cli.Strto.{Str}
use c_examples.Net.Address.{
  Family, af_inet, af_inet6, SocketType, SockaddrStorage, zeroed, System, IsOrdered, size_of,
  address_bytes, convert_address,
}
use c_examples.Net.Sockets.{
  Socket, fresh, with_port, socket_create, bound, bind_as, socket_bind, connected, connect_as,
  socket_connect,
}

abbrev pub inet : List ℕ → SockaddrStorage
inet bytes = record zeroed { ss_family = af_inet; sin_addr = bytes }

abbrev pub inet6 : List ℕ → SockaddrStorage
inet6 bytes = record zeroed { ss_family = af_inet6; sin6_addr = bytes }

module _ (sys : System) (address : Str) where
  -- What `convert_address` makes of a text.
  pub data Converted : SockaddrStorage → Type 0 where
    is_inet : (bytes : List ℕ) → sys.inet_pton af_inet address ≡ some bytes → Converted (inet bytes)
    is_inet6 :
        (bytes : List ℕ) → sys.inet_pton af_inet6 address ≡ some bytes → Converted (inet6 bytes)

  -- The socket address, with its length, that a text and a port name.
  abbrev pub Named : ℕ → SockaddrStorage × ℕ → Type 0
  Named port (addr, addr_len) =
      (sys.inet_pton addr.ss_family address ≡ some (address_bytes addr))
      × (size_of addr.ss_family ≡ some addr_len)
      × (sys.ntohs addr.sin_port ≡ port)

  pub convert_address-Converted :
      (addr : SockaddrStorage) → convert_address sys address ≡ returns addr → Converted addr
  unfolding convert_address
  convert_address-Converted addr e =
      by_results (sys.inet_pton af_inet address) (sys.inet_pton af_inet6 address) refl refl e
    where
      by_results :
          (ipv4 ipv6 : Option (List ℕ))
          → sys.inet_pton af_inet address ≡ ipv4
          → sys.inet_pton af_inet6 address ≡ ipv6
          → (elim ipv4 [
            | some bytes ↦ returns (inet bytes)
            | none ↦ elim ipv6 [ some bytes ↦ returns (inet6 bytes) | none ↦ exits failure ]
          ])
            ≡ returns addr
          → Converted addr
      by_results (some bytes) ipv6 h k e =
          subst Converted (sym (returns-injective e)) (is_inet bytes h)
      by_results none (some bytes) h k e =
          subst Converted (sym (returns-injective e)) (is_inet6 bytes k)
      by_results none none h k e = absurd (cc e)

  pub convert_address-Finishes : Finishes (convert_address sys address)
  unfolding convert_address
  convert_address-Finishes = ground arith

module _ (sys : System) where
  pub socket_create-Fresh :
      (domain : Family) (type : SocketType) (s : Socket)
      → socket_create sys domain type ≡ returns s
      → s ≡ fresh s.sockfd domain type
  unfolding socket_create
  socket_create-Fresh domain type s e =
      let (fd, h, k) = >>=-eq-returns (or_exit (sys.socket domain type)) _ e in
      rw (returns-injective k) refl

  pub socket_create-Finishes :
      (domain : Family) (type : SocketType) → Finishes (socket_create sys domain type)
  unfolding socket_create
  socket_create-Finishes domain type =
      Finishes-then (or_exit (sys.socket domain type)) _ (or_exit-Finishes _) (λ fd e. tt)

  bind_as-Bound :
      (s : Socket) (addr : SockaddrStorage) (addr_len : ℕ) (vaddr : List ℕ) (port : ℕ) {t : Socket}
      → bind_as sys s addr addr_len vaddr port ≡ returns t
      → (addr_str : Str) × (t ≡ bound s addr addr_len addr_str port)
  bind_as-Bound s addr addr_len vaddr port e =
      let (addr_str, h, k) = >>=-eq-returns (or_exit (sys.inet_ntop addr.ss_family vaddr)) _ e in
      (addr_str, returns-injective ((require-eq-returns _ _ k).1))

  connect_as-Connected :
      (s : Socket) (addr : SockaddrStorage) (addr_len : ℕ) (addr_str : Str) (port : ℕ) {t : Socket}
      → connect_as sys s addr addr_len addr_str port ≡ returns t
      → t ≡ connected s addr addr_len addr_str port
  connect_as-Connected s addr addr_len addr_str port e =
      returns-injective ((require-eq-returns _ _ e).1)

  module _ (order : IsOrdered sys) (address : Str) (port : ℕ) (small : port < 2 ^ 16) where
    -- A socket that `socket_bind` returns has the address that the text and the port name.
    pub socket_bind-Bound :
        (s : Socket) (addr : SockaddrStorage) {t : Socket}
        → Converted sys address addr
        → socket_bind sys s addr port ≡ returns t
        → (name : SockaddrStorage × ℕ) × (addr_str : Str) × (t
            ≡ bound s name.0 name.1 addr_str port)
          × Named sys address port name
          × (name.0.ss_family ≡ addr.ss_family)
    unfolding socket_bind
    socket_bind-Bound s _ (is_inet bytes h) e =
        let (addr_str, k) = bind_as-Bound s (with_port (inet bytes) (sys.htons port)) 16 _ port e in
        (
          (with_port (inet bytes) (sys.htons port), 16),
          addr_str,
          k,
          (h, refl, order port small),
          refl,
        )
    socket_bind-Bound s _ (is_inet6 bytes h) e =
        let (addr_str, k) =
          bind_as-Bound s (with_port (inet6 bytes) (sys.htons port)) 28 _ port e in
        (
          (with_port (inet6 bytes) (sys.htons port), 28),
          addr_str,
          k,
          (h, refl, order port small),
          refl,
        )

    pub socket_connect-Connected :
        (s : Socket) (addr : SockaddrStorage) {t : Socket}
        → Converted sys address addr
        → socket_connect sys s addr port ≡ returns t
        → (peer : SockaddrStorage × ℕ) × (addr_str : Str) × (t
            ≡ connected s peer.0 peer.1 addr_str port)
          × Named sys address port peer
          × (peer.0.ss_family ≡ addr.ss_family)
    unfolding socket_connect
    socket_connect-Connected s _ (is_inet bytes h) e =
        let (addr_str, g, k) = >>=-eq-returns (or_exit (sys.inet_ntop af_inet bytes)) _ e in
        let addr = with_port (inet bytes) (sys.htons port) in
        (
          (addr, 16),
          addr_str,
          connect_as-Connected s addr 16 addr_str port k,
          (h, refl, order port small),
          refl,
        )
    socket_connect-Connected s _ (is_inet6 bytes h) e =
        let (addr_str, g, k) = >>=-eq-returns (or_exit (sys.inet_ntop af_inet6 bytes)) _ e in
        let addr = with_port (inet6 bytes) (sys.htons port) in
        (
          (addr, 28),
          addr_str,
          connect_as-Connected s addr 28 addr_str port k,
          (h, refl, order port small),
          refl,
        )
