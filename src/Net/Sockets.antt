-- ===== src/Net/Sockets.antt =====
-- A socket, from `socket` to `listen` or `connect`: the functions of tcp/shutdown/server.c and
-- tcp/shutdown/client.c, which the other programs repeat.
use c_examples.Base.{ℕ, Bool, true, false, Option, none, some, List, [], ◌∷◌, ◌++◌}
use c_examples.Base.Run.{failure, Run, returns, exits, ◌>>=◌, ◌>>◌, require, or_exit}
use c_examples.Cli.Strto.{Str, ℤ}
use c_examples.Net.Address.{
  Family, af_inet, af_inet6, SocketType, SockaddrStorage, System, address_bytes,
}

-- A line on the standard output: the text of an address and a port.
pub data Line : Type 0 where
  binding_to bound_to connecting_to connected_to : Str → ℕ → Line
  listening : Line

-- The kernel's view of a socket, with what has been printed: its local and its remote address, each with
-- the length it was given in, and the backlog once it listens.
pub record Socket : Type 0 where
  pub sockfd : ℕ
  pub domain : Family
  pub type : SocketType
  pub reuse : Bool
  pub name : Option (SockaddrStorage × ℕ)
  pub backlog : Option ℤ
  pub peer : Option (SockaddrStorage × ℕ)
  pub lines : List Line

abbrev pub fresh : ℕ → Family → SocketType → Socket
fresh sockfd domain type = record {
  sockfd = sockfd;
  domain = domain;
  type = type;
  reuse = false;
  name = none;
  backlog = none;
  peer = none;
  lines = [];
}

abbrev pub with_port : SockaddrStorage → ℕ → SockaddrStorage
with_port addr net_port = record addr { sin_port = net_port }

abbrev pub bound : Socket → SockaddrStorage → ℕ → Str → ℕ → Socket
bound s addr addr_len addr_str port = record s {
  name = some (addr, addr_len);
  lines = s.lines ++ binding_to addr_str port ∷ bound_to addr_str port ∷ [];
}

abbrev pub connected : Socket → SockaddrStorage → ℕ → Str → ℕ → Socket
connected s addr addr_len addr_str port = record s {
  peer = some (addr, addr_len);
  lines = s.lines ++ connecting_to addr_str port ∷ connected_to addr_str port ∷ [];
}

module _ (sys : System) where
  unfoldable pub socket_create : Family → SocketType → Run Socket
  socket_create domain type =
      or_exit (sys.socket domain type) >>= λ sockfd. returns (fresh sockfd domain type)

  -- `setsockopt` with SO_REUSEADDR.
  unfoldable pub reuse_address : Socket → Run Socket
  reuse_address s = require (sys.reuses s.sockfd) >> returns (record s { reuse = true })

  -- Behind the test of the family.
  abbrev pub bind_as : Socket → SockaddrStorage → ℕ → List ℕ → ℕ → Run Socket
  bind_as s addr addr_len vaddr port = or_exit (sys.inet_ntop addr.ss_family vaddr) >>= λ addr_str.
      require (sys.binds s.sockfd addr addr_len) >> returns (bound s addr addr_len addr_str port)

  unfoldable pub socket_bind : Socket → SockaddrStorage → ℕ → Run Socket
  socket_bind s addr port = elim addr.ss_family [
    | af_inet ↦ bind_as s (with_port addr (sys.htons port)) 16 addr.sin_addr port
    | af_inet6 ↦ bind_as s (with_port addr (sys.htons port)) 28 addr.sin6_addr port
    | _ ↦ exits failure
  ]

  -- Where `listen` fails, the socket is closed, as it is by the end of the process in any case.
  unfoldable pub start_listening : Socket → ℤ → Run Socket
  start_listening s backlog =
      require (sys.listens s.sockfd backlog)
      >> returns (record s { backlog = some backlog; lines = s.lines ++ listening ∷ [] })

  unfoldable pub setup_signal_handler : Run (Unit {0})
  setup_signal_handler = require sys.handles

  -- Behind the test of the family.
  abbrev pub connect_as : Socket → SockaddrStorage → ℕ → Str → ℕ → Run Socket
  connect_as s addr addr_len addr_str port =
      require (sys.connects s.sockfd addr addr_len)
      >> returns (connected s addr addr_len addr_str port)

  unfoldable pub socket_connect : Socket → SockaddrStorage → ℕ → Run Socket
  socket_connect s addr port =
      or_exit (sys.inet_ntop addr.ss_family (address_bytes addr)) >>= λ addr_str.
      elim addr.ss_family [
        | af_inet ↦ connect_as s (with_port addr (sys.htons port)) 16 addr_str port
        | af_inet6 ↦ connect_as s (with_port addr (sys.htons port)) 28 addr_str port
        | _ ↦ exits failure
      ]
