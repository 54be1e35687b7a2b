-- ===== src/Net/Address.antt =====
-- The addresses of the programs in tcp/, udp/, sockets/ and networking-functions/: `sockaddr_storage`, and
-- what these programs ask of the system.
use c_examples.Base.{ℕ, ◌<◌, ◌^◌, ◌≡◌, Bool, Option, none, some, List, []}
use c_examples.Base.Run.{failure, Run, returns, exits, undefined}
use c_examples.Cli.Strto.{Str, ℤ}

pub data Family : Type 0 where
  af_unspec af_inet af_inet6 af_unix : Family

pub data SocketType : Type 0 where
  sock_stream sock_dgram sock_raw sock_seqpacket : SocketType

-- `sockaddr_storage`, as `sockaddr_in` and `sockaddr_in6` read it: `sin_port` and `sin6_port` are at one
-- place, `sin_addr` and `sin6_addr` are apart. The port is in network order.
pub record SockaddrStorage : Type 0 where
  pub ss_family : Family
  pub sin_port : ℕ
  pub sin_addr : List ℕ
  pub sin6_addr : List ℕ

-- What `memset` makes of it.
abbrev pub zeroed : SockaddrStorage
zeroed = record { ss_family = af_unspec; sin_port = 0; sin_addr = []; sin6_addr = [] }

-- The C library and the kernel: the bytes of an address that a text names, the text of an address, the
-- byte order of a port, and which calls succeed, `socket` with a descriptor.
pub record System : Type 0 where
  pub inet_pton : Family → Str → Option (List ℕ)
  pub inet_ntop : Family → List ℕ → Option Str
  pub htons : ℕ → ℕ
  pub ntohs : ℕ → ℕ
  pub somaxconn : ℤ
  pub socket : Family → SocketType → Option ℕ
  pub reuses : ℕ → Bool
  pub binds : ℕ → SockaddrStorage → ℕ → Bool
  pub listens : ℕ → ℤ → Bool
  pub handles : Bool
  pub connects : ℕ → SockaddrStorage → ℕ → Bool

-- `ntohs` undoes `htons`.
abbrev pub IsOrdered : System → Type 0
IsOrdered sys = (port : ℕ) → port < 2 ^ 16 → sys.ntohs (sys.htons port) ≡ port

-- The pointer to a text that a function is called with.
abbrev pub given : Option Str → Run Str
given none = undefined
given (some text) = returns text

-- `sizeof(struct sockaddr_in)` and `sizeof(struct sockaddr_in6)`.
abbrev pub size_of : Family → Option ℕ
size_of af_inet = some 16
size_of af_inet6 = some 28
size_of _ = none

-- The bytes `sin_addr`, or else `sin6_addr`.
abbrev pub address_bytes : SockaddrStorage → List ℕ
address_bytes addr = elim addr.ss_family [ af_inet ↦ addr.sin_addr | _ ↦ addr.sin6_addr ]

-- `inet_pton` writes where it succeeds, and else nothing.
unfoldable pub convert_address : System → Str → Run SockaddrStorage
convert_address sys address = elim (sys.inet_pton af_inet address) [
  | some bytes ↦ returns (record zeroed { ss_family = af_inet; sin_addr = bytes })
  | none ↦ elim (sys.inet_pton af_inet6 address) [
    | some bytes ↦ returns (record zeroed { ss_family = af_inet6; sin6_addr = bytes })
    | none ↦ exits failure
  ]
]
