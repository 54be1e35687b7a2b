-- ===== src/Tests/Client.antt =====
-- The clients with an internet socket, and the server of datagrams, at concrete inputs.
use c_examples.Base.{
  ℕ, ◌-◌, ◌≡◌, refl, false, Option, none, some, List, [], ◌∷◌, ◌++◌, map, take, length, arith,
}
use c_examples.Base.Run.{returns}
use c_examples.Cli.Strto.{Str, pos, strtoumax, strtoimax}
use c_examples.Cli.Getopt.{CommandLine, letter, opt_b, has_more, operand, operands, last_arg}
use c_examples.Cli.Numbers
use c_examples.Cli.TcpServer
use c_examples.Cli.TcpClient as CliClient
use c_examples.Cli.ListenAccept as CliListen
use c_examples.Cli.UdpClient as CliUdp
use c_examples.Net.Address.{af_inet, sock_stream, sock_dgram, SockaddrStorage, convert_address}
use c_examples.Net.Sockets.{
  Socket, binding_to, bound_to, listening, connecting_to, connected_to, socket_create, socket_bind,
  socket_connect, start_listening, setup_signal_handler,
}
use c_examples.Net.Names.{Named}
use c_examples.Net.Served.{ListensAt}
use c_examples.Net.Listened.{listen_main-ListensAt}
use c_examples.Net.ListenAccept
use c_examples.Net.Reached.{ConnectedTo, connect_main-ConnectedTo}
use c_examples.Net.Connect
use c_examples.Net.Connect.{Reading, byte}
use c_examples.Net.Sent.{udp_client-sends}
use c_examples.Net.Datagram.{shown_text, datagram_shown}
use c_examples.Net.UdpClient
use c_examples.Net.UdpClient.{Sending}
use c_examples.Net.UdpServer
use c_examples.Net.UdpServer.{Packet, cap}
use c_examples.Serial.Effects.{Log, written, printed, closed, socket_close}
use c_examples.Serial.Loop.{Accept, client, stopped, effects, accept_loop}
use c_examples.Serial.Servers.{listen_main, listen_serve, handle_connection_from}
use c_examples.Tests.Net.{system, system-IsOrdered, world, command_line}

abbrev here : SockaddrStorage
here = record {
  ss_family = af_inet;
  sin_port = 36895;
  sin_addr = 127 ∷ 0 ∷ 0 ∷ 1 ∷ [];
  sin6_addr = [];
}

abbrev port : Str
port = 56 ∷ 48 ∷ 56 ∷ 48 ∷ []

-- "p a 8080 hi", with or without -b 5.
abbrev with_message : CommandLine
with_message = record {
  argv = (112 ∷ []) ∷ (97 ∷ []) ∷ port ∷ (104 ∷ 105 ∷ []) ∷ [];
  opts = letter opt_b (53 ∷ []) ∷ [];
  optind = 1;
}

abbrev plain_message : CommandLine
plain_message = record with_message { opts = [] }

abbrev text : Str
text = 127 ∷ 0 ∷ 0 ∷ 1 ∷ []

abbrev listener : Socket
listener = record {
  sockfd = 3;
  domain = af_inet;
  type = sock_stream;
  reuse = false;
  name = some (here, 16);
  backlog = some (pos 5);
  peer = none;
  lines = binding_to text 8080 ∷ bound_to text 8080 ∷ listening ∷ [];
}

abbrev rounds : List Accept
rounds = client 5 [] ∷ stopped ∷ []

abbrev listen_log : Log
listen_log = written 5 104 ∷ written 5 105 ∷ closed 5 ∷ closed 3 ∷ []

listen_run : ListenAccept.main system world with_message rounds ≡ returns (listener, listen_log)
unfolding ListenAccept.main ListenAccept.convert_address ListenAccept.socket_create
    ListenAccept.socket_bind ListenAccept.start_listening ListenAccept.setup_signal_handler
    CliListen.arguments has_more operand CliListen.parse_in_port_t Numbers.parse_in_port_t
    Numbers.parse_positive_int strtoumax strtoimax convert_address socket_create socket_bind
    start_listening setup_signal_handler listen_main listen_serve handle_connection_from accept_loop
    socket_close
listen_run = refl

listen_main-ListensAt_example :
    (backlog_str address port_str message : Str) × (backlog : _) × (last_arg opt_b with_message.opts
        none
      ≡ some backlog_str)
    × (operands with_message ≡ address ∷ port_str ∷ message ∷ [])
    × (Numbers.parse_positive_int backlog_str ≡ returns backlog)
    × ListensAt system backlog false (address ∷ port_str ∷ []) listener
    × (listen_log
        ≡ effects (λ fd es. map (written fd) message ++ closed fd ∷ []) rounds ++ closed 3 ∷ [])
listen_main-ListensAt_example =
    listen_main-ListensAt system world system-IsOrdered (λ fd. refl) with_message (omega arith)
      rounds listener listen_log listen_run

abbrev connected_socket : Socket
connected_socket = record listener {
  name = none;
  backlog = none;
  peer = some (here, 16);
  lines = connecting_to text 8080 ∷ connected_to text 8080 ∷ [];
}

abbrev readings : List Reading
readings = byte 104 ∷ byte 105 ∷ []

abbrev connect_log : Log
connect_log = printed (104 ∷ []) ∷ printed (105 ∷ []) ∷ closed 3 ∷ []

connect_run :
    Connect.main system world command_line readings ≡ returns (connected_socket, connect_log)
unfolding Connect.main Connect.convert_address Connect.socket_create Connect.socket_connect
    Connect.socket_close Connect.read_loop Connect.arguments CliClient.arguments has_more operand
    CliClient.parse_in_port_t Numbers.parse_in_port_t strtoumax convert_address socket_create
    socket_connect socket_close
connect_run = refl

connect_main-ConnectedTo_example :
    ConnectedTo system sock_stream (operands command_line) connected_socket
    × (bytes : List ℕ) × (readings ≡ map byte bytes)
    × (connect_log ≡ map (λ ch. printed (ch ∷ [])) bytes ++ closed 3 ∷ [])
connect_main-ConnectedTo_example =
    connect_main-ConnectedTo world system system-IsOrdered command_line (omega arith) readings
      connected_socket connect_log connect_run

abbrev sendto : Sending → Option ℕ
sendto sending = some (length sending.datagram)

abbrev sending : Sending
sending = record { from = 3; datagram = 104 ∷ 105 ∷ 0 ∷ []; to = (here, 16) }

send_run : UdpClient.main system world sendto plain_message ≡ returns (sending, 3, closed 3 ∷ [])
unfolding UdpClient.main UdpClient.convert_address UdpClient.socket_create UdpClient.socket_close
    UdpClient.get_address_to_server CliUdp.arguments has_more operand CliUdp.parse_in_port_t
    Numbers.parse_in_port_t strtoumax socket_create socket_close
send_run = refl

udp_client-sends_example :
    (address port_str message : Str) × (port : ℕ) × (operands plain_message
      ≡ address ∷ port_str ∷ message ∷ [])
    × (Numbers.parse_in_port_t port_str ≡ returns port)
    × Named system address port sending.to
    × (sending.datagram ≡ message ++ 0 ∷ [])
udp_client-sends_example =
    udp_client-sends system world system-IsOrdered plain_message (omega arith) sendto sending 3
      (closed 3 ∷ []) send_run

abbrev recvfrom : ℕ → ℕ → Option (List ℕ)
recvfrom fd size = some (take size sending.datagram)

abbrev datagram_socket : Socket
datagram_socket = record listener {
  type = sock_dgram;
  backlog = none;
  lines = binding_to text 8080 ∷ bound_to text 8080 ∷ [];
}

abbrev packet : Packet
packet = record { client_sockfd = 3; bytes = 3; text = 104 ∷ 105 ∷ [] }

receive_run :
    UdpServer.main system world recvfrom command_line
    ≡ returns (datagram_socket, packet, closed 3 ∷ [])
unfolding UdpServer.main UdpServer.convert_address UdpServer.socket_create UdpServer.socket_bind
    UdpServer.socket_close UdpServer.handle_packet UdpServer.clamped UdpServer.arguments
    TcpServer.arguments has_more operand TcpServer.parse_in_port_t Numbers.parse_in_port_t strtoumax
    convert_address socket_create socket_bind socket_close
receive_run = refl

datagram_shown_example : packet ≡ shown_text (cap - 1) (104 ∷ 105 ∷ []) 3
datagram_shown_example =
    datagram_shown system system world world system-IsOrdered system-IsOrdered plain_message
      command_line (omega arith) (omega arith) sendto recvfrom (97 ∷ []) port (104 ∷ 105 ∷ [])
      sending 3 (closed 3 ∷ []) (closed 3 ∷ []) datagram_socket packet refl
      (omega arith, (omega arith, tt)) (λ fd size. refl) send_run receive_run
