-- ===== src/Net/UdpServer.antt =====
-- udp/sendto-recvfrom/server.c.
use c_examples.Base.{
  ℕ, ◌-◌, leb, if◌then◌else◌, Option, List, [], ◌∷◌, ◌++◌, length, take, c_string,
}
use c_examples.Base.Run.{Run, returns, ◌>>=◌, or_exit}
use c_examples.Cli.Strto.{Str}
use c_examples.Cli.Getopt.{CommandLine}
use c_examples.Net.Address
use c_examples.Net.Address.{
  Family, af_unspec, af_inet, af_inet6, af_unix, SocketType, sock_stream, sock_dgram, sock_raw,
  sock_seqpacket, SockaddrStorage, System, given, zeroed,
}
use c_examples.Net.Sockets
use c_examples.Net.Sockets.{
  Socket, with_port, reuse_address, socket_connect, start_listening, setup_signal_handler,
}
use c_examples.Serial.Effects
use c_examples.Serial.Effects.{Effect, World, Log, printed, shut_wr}
use c_examples.Cli.TcpServer

unfoldable pub parse_in_port_t : Str → Run ℕ
parse_in_port_t = TcpServer.parse_in_port_t

unfoldable pub parse_arguments : CommandLine → Run (Option Str × Option Str)
parse_arguments = TcpServer.parse_arguments

unfoldable pub handle_arguments : Option Str → Option Str → Run ℕ
handle_arguments = TcpServer.handle_arguments

unfoldable pub arguments : CommandLine → Run (Option Str × ℕ)
arguments = TcpServer.arguments

unfoldable pub convert_address : System → Str → Run SockaddrStorage
convert_address = Address.convert_address

unfoldable pub socket_create : System → Family → SocketType → Run Socket
socket_create = Sockets.socket_create

unfoldable pub socket_bind : System → Socket → SockaddrStorage → ℕ → Run Socket
socket_bind = Sockets.socket_bind

unfoldable pub socket_close : World → ℕ → Log → Run Log
socket_close = Effects.socket_close

-- What `handle_packet` prints: the descriptor, the number of bytes, and the text.
pub record Packet : Type 0 where
  pub client_sockfd : ℕ
  pub bytes : ℕ
  pub text : List ℕ

unfoldable pub handle_packet : ℕ → List ℕ → ℕ → Packet
handle_packet client_sockfd buffer bytes = record {
  client_sockfd = client_sockfd;
  bytes = bytes;
  text = c_string buffer;
}

-- `sizeof(buffer)`.
abbrev pub cap : ℕ
cap = 1025

-- The index of the NUL that ends the text.
unfoldable pub clamped : ℕ → ℕ
clamped n = if leb cap n then cap - 1 else n

-- `recvfrom`, on a descriptor and with the room in the buffer, gives the bytes it writes there, or -1.
module _ (sys : System) (v : World) (recvfrom : ℕ → ℕ → Option (List ℕ)) where
  unfoldable pub main : CommandLine → Run (Socket × Packet × Log)
  main a = arguments a >>= λ (address, port). given address >>= λ address.
      convert_address sys address >>= λ addr. socket_create sys addr.ss_family sock_dgram >>= λ s.
      socket_bind sys s addr port >>= λ s. or_exit (recvfrom s.sockfd (cap - 1)) >>= λ received.
      let buffer = take (clamped (length received)) received ++ 0 ∷ [] in
      let packet = handle_packet s.sockfd buffer (length received) in
      socket_close v s.sockfd [] >>= λ log. returns (s, packet, log)
