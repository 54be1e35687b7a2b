-- ===== src/Net/UdpClient.antt =====
-- udp/sendto-recvfrom/client.c.
use c_examples.Base.{ℕ, Option, none, some, List, [], ◌∷◌, ◌++◌}
use c_examples.Base.Run.{failure, Run, returns, exits, ◌>>=◌, or_exit}
use c_examples.Cli.Strto.{Str}
use c_examples.Cli.Getopt.{CommandLine}
use c_examples.Net.Address.{
  Family, af_inet, af_inet6, SocketType, sock_dgram, SockaddrStorage, System, given, zeroed,
}
use c_examples.Net.Sockets
use c_examples.Net.Sockets.{
  Socket, with_port, reuse_address, socket_bind, socket_connect, start_listening,
  setup_signal_handler,
}
use c_examples.Serial.Effects
use c_examples.Serial.Effects.{Effect, World, Log, printed, shut_wr}
use c_examples.Cli.UdpClient.{arguments}

unfoldable pub socket_create : System → Family → SocketType → Run Socket
socket_create = Sockets.socket_create

unfoldable pub socket_close : World → ℕ → Log → Run Log
socket_close = Effects.socket_close

-- With the length that `main` passes to `sendto`.
unfoldable pub convert_address : System → Str → Run (SockaddrStorage × ℕ)
convert_address sys address = elim (sys.inet_pton af_inet address) [
  | some bytes ↦ returns (record zeroed { ss_family = af_inet; sin_addr = bytes }, 16)
  | none ↦ elim (sys.inet_pton af_inet6 address) [
    | some bytes ↦ returns (record zeroed { ss_family = af_inet6; sin6_addr = bytes }, 28)
    | none ↦ exits failure
  ]
]

unfoldable pub get_address_to_server : System → SockaddrStorage → ℕ → SockaddrStorage
get_address_to_server sys addr port = elim addr.ss_family [
  | af_inet ↦ record addr { ss_family = af_inet; sin_port = sys.htons port }
  | af_inet6 ↦ record addr { ss_family = af_inet6; sin_port = sys.htons port }
  | _ ↦ addr
]

-- What is passed to `sendto`.
pub record Sending : Type 0 where
  pub from : ℕ
  pub datagram : List ℕ
  pub to : SockaddrStorage × ℕ

module _ (sys : System) (v : World) (sendto : Sending → Option ℕ) where
  -- With the number of bytes that it prints as sent.
  unfoldable pub main : CommandLine → Run (Sending × ℕ × Log)
  main a = arguments a >>= λ (address, message, port). given address >>= λ address.
      convert_address sys address >>= λ (addr, addr_len).
      socket_create sys addr.ss_family sock_dgram >>= λ s. given message >>= λ message.
      let sending : Sending = record {
        from = s.sockfd;
        datagram = message ++ 0 ∷ [];
        to = (get_address_to_server sys addr port, addr_len);
      } in
      or_exit (sendto sending) >>= λ bytes_sent.
      socket_close v s.sockfd [] >>= λ log. returns (sending, bytes_sent, log)
