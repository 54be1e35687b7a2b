-- ===== src/Tests/Net.antt =====
-- The programs with an internet socket, at concrete inputs. The strings are codes of characters.
use c_examples.Base.{
  ℕ, ◌+◌, ◌*◌, ◌/◌, ◌%◌, ◌≡◌, refl, ap, sym, true, false, if◌then◌else◌, ◌==◌, inl, Option, none,
  some, List, [], ◌∷◌, ◌++◌, arith,
}
use c_examples.Base.Run.{returns, Finishes}
use c_examples.Cli.Strto.{Str, pos, strtoumax}
use c_examples.Cli.Decimal.{decimal}
use c_examples.Cli.Getopt.{CommandLine, has_more, operand, operands}
use c_examples.Cli.Numbers
use c_examples.Cli.TcpServer
use c_examples.Net.Address.{Family, af_inet, sock_stream, System, IsOrdered, convert_address}
use c_examples.Net.Sockets.{
  Socket, binding_to, bound_to, listening, socket_create, socket_bind, start_listening,
  setup_signal_handler,
}
use c_examples.Net.Served.{ListensAt, tcp_main-ListensAt}
use c_examples.Net.Willing.{Willing, tcp_main_serves}
use c_examples.Net.Total.{tcp_main-Finishes}
use c_examples.Net.TcpServer as Tcp
use c_examples.Serial.Effects.{
  World, Log, shut_rd, shut_rdwr, closed, socket_close, shutdown_socket,
}
use c_examples.Serial.Loop.{Accept, refused, stopped, client, effects, accept_loop}
use c_examples.Serial.Servers.{shutdown_main, shutdown_serve}

abbrev swapped : ℕ → ℕ
swapped port = (port % 256) * 256 + port / 256

-- "a" is 127.0.0.1.
abbrev names : Family → Str → Option (List ℕ)
names af_inet (c ∷ []) = if c == 97 then some (127 ∷ 0 ∷ 0 ∷ 1 ∷ []) else none
names _ _ = none

abbrev pub system : System
system = record {
  inet_pton = names;
  inet_ntop = λ family bytes. some bytes;
  htons = swapped;
  ntohs = swapped;
  somaxconn = pos 4096;
  socket = λ domain type. some 3;
  reuses = λ fd. true;
  binds = λ fd addr addr_len. true;
  listens = λ fd backlog. true;
  handles = true;
  connects = λ fd addr addr_len. true;
}

pub system-IsOrdered : IsOrdered system
system-IsOrdered port h = omega arith

abbrev pub world : World
world = record { closes = λ fd. true; shuts = λ fd. true; writes = λ fd i. true }

-- "p a 8080".
abbrev pub command_line : CommandLine
command_line = record {
  argv = (112 ∷ []) ∷ (97 ∷ []) ∷ (56 ∷ 48 ∷ 56 ∷ 48 ∷ []) ∷ [];
  opts = [];
  optind = 1;
}

abbrev rounds : List Accept
rounds = refused ∷ client 5 [] ∷ stopped ∷ []

willing : Willing system 3
willing = record {
  creates = λ domain type. refl;
  has_text = λ family bytes. (bytes, refl);
  binding = λ addr addr_len. refl;
  listens = λ backlog. refl;
  handling = refl;
}

decimal_8080 : decimal 8080 ≡ 56 ∷ 48 ∷ 56 ∷ 48 ∷ []
unfolding decimal
decimal_8080 = refl

tcp_main_serves_example :
    (s : Socket) × (Tcp.main system world command_line rounds
      ≡ returns
          (s, effects (λ fd es. shut_rd fd ∷ closed fd ∷ []) rounds ++ shut_rdwr 3 ∷ closed 3 ∷ []))
    × (s.sockfd ≡ 3)
    × ListensAt system (pos 4096) false ((97 ∷ []) ∷ decimal 8080 ∷ []) s
tcp_main_serves_example =
    tcp_main_serves system (97 ∷ []) 3 willing world command_line (omega arith) rounds 8080 refl
      (ap (λ p. (97 ∷ []) ∷ p ∷ []) (sym decimal_8080)) (omega arith) system-IsOrdered (λ fd. refl)
      refl (inl (_, refl))

tcp_main-Finishes_example : Finishes (Tcp.main system world command_line rounds)
tcp_main-Finishes_example = tcp_main-Finishes system world command_line (omega arith) rounds

abbrev listening_socket : Socket
listening_socket = record {
  sockfd = 3;
  domain = af_inet;
  type = sock_stream;
  reuse = false;
  name = some (
    record {
      ss_family = af_inet;
      sin_port = 36895;
      sin_addr = 127 ∷ 0 ∷ 0 ∷ 1 ∷ [];
      sin6_addr = [];
    },
    16,
  );
  backlog = some (pos 4096);
  peer = none;
  lines =
      binding_to (127 ∷ 0 ∷ 0 ∷ 1 ∷ []) 8080
      ∷ bound_to (127 ∷ 0 ∷ 0 ∷ 1 ∷ []) 8080
      ∷ listening
      ∷ [];
}

abbrev tcp_log : Log
tcp_log = shut_rd 5 ∷ closed 5 ∷ shut_rdwr 3 ∷ closed 3 ∷ []

tcp_main_run : Tcp.main system world command_line rounds ≡ returns (listening_socket, tcp_log)
unfolding Tcp.main TcpServer.arguments has_more operand TcpServer.parse_in_port_t
    Numbers.parse_in_port_t strtoumax convert_address socket_create socket_bind start_listening
    setup_signal_handler shutdown_main shutdown_serve accept_loop shutdown_socket socket_close
tcp_main_run = refl

tcp_main-ListensAt_example :
    ListensAt system (pos 4096) false (operands command_line) listening_socket
    × (tcp_log
        ≡ effects (λ fd es. shut_rd fd ∷ closed fd ∷ []) rounds ++ shut_rdwr 3 ∷ closed 3 ∷ [])
tcp_main-ListensAt_example =
    tcp_main-ListensAt system world system-IsOrdered (λ fd. refl) command_line (omega arith) rounds
      listening_socket tcp_log tcp_main_run
