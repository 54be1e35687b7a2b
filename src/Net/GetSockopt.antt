-- ===== src/Net/GetSockopt.antt =====
-- sockets/getsockopt/main.c.
use c_examples.Base.{ℕ, zero, ◌⊎◌, inl, inr, Bool, true, false, Option, List, [], ◌∷◌}
use c_examples.Base.Run.{Run, returns, ◌>>=◌}
use c_examples.Cli.Strto.{Str, ℤ, pos}
use c_examples.Cli.Getopt.{CommandLine}
use c_examples.Net.Address
use c_examples.Net.Address.{
  Family, af_unspec, af_inet, af_inet6, af_unix, SocketType, sock_stream, sock_dgram, sock_raw,
  sock_seqpacket, SockaddrStorage, System, given, zeroed,
}
use c_examples.Net.Sockets
use c_examples.Net.Sockets.{
  Socket, with_port, reuse_address, socket_connect, start_listening, setup_signal_handler,
}
use c_examples.Serial.Effects
use c_examples.Serial.Effects.{Effect, World, Log, printed, shut_wr}
use c_examples.Cli.TcpServer

unfoldable pub parse_in_port_t : Str → Run ℕ
parse_in_port_t = TcpServer.parse_in_port_t

unfoldable pub parse_arguments : CommandLine → Run (Option Str × Option Str)
parse_arguments = TcpServer.parse_arguments

unfoldable pub handle_arguments : Option Str → Option Str → Run ℕ
handle_arguments = TcpServer.handle_arguments

unfoldable pub arguments : CommandLine → Run (Option Str × ℕ)
arguments = TcpServer.arguments

unfoldable pub convert_address : System → Str → Run SockaddrStorage
convert_address = Address.convert_address

unfoldable pub socket_create : System → Family → SocketType → Run Socket
socket_create = Sockets.socket_create

unfoldable pub socket_bind : System → Socket → SockaddrStorage → ℕ → Run Socket
socket_bind = Sockets.socket_bind

unfoldable pub socket_close : World → ℕ → Log → Run Log
socket_close = Effects.socket_close

pub data Level : Type 0 where
  sol_socket ipproto_tcp : Level

pub data OptionName : Type 0 where
  so_acceptconn so_broadcast so_debug so_dontroute so_error so_keepalive so_linger so_oobinline :
      OptionName
  so_rcvbuf so_rcvlowat so_rcvtimeo so_reuseaddr so_sndbuf so_sndlowat so_sndtimeo so_type :
      OptionName

-- What `getsockopt` sets `errno` to.
pub data Errno : Type 0 where
  enoprotoopt einval other : Errno

-- What `getsockopt` gives, as each of the print functions reads it.
pub record Answers : Type 0 where
  pub as_int : ℕ → Level → OptionName → Errno ⊎ ℤ
  pub as_timeval : ℕ → Level → OptionName → Errno ⊎ (ℤ × ℤ)
  pub as_linger : ℕ → Level → OptionName → Errno ⊎ (ℤ × ℤ)

pub data Report : Type 0 where
  enabled : Bool → Report
  value : ℤ → Report
  -- Seconds and microseconds.
  timeval : ℤ → ℤ → Report
  linger : Bool → ℤ → Report
  not_supported error_getting perror : Report

-- A report and the name it stands under; `perror` writes none.
abbrev pub Printed : Type 0
Printed = OptionName × Report

abbrev pub is_set : ℤ → Bool
is_set (pos zero) = false
is_set _ = true

abbrev pub not_gotten : Errno → Report
not_gotten other = error_getting
not_gotten _ = not_supported

unfoldable pub print_socket_opt_bool : Answers → ℕ → Level → OptionName → OptionName → Printed
print_socket_opt_bool k sockfd option_level option_name option_name_str =
    elim (k.as_int sockfd option_level option_name) [
      | inr optval ↦ (option_name_str, enabled (is_set optval))
      | inl errno ↦ (option_name_str, not_gotten errno)
    ]

unfoldable pub print_socket_opt_int : Answers → ℕ → Level → OptionName → OptionName → Printed
print_socket_opt_int k sockfd option_level option_name option_name_str =
    elim (k.as_int sockfd option_level option_name) [
      | inr optval ↦ (option_name_str, value optval)
      | inl errno ↦ (option_name_str, not_gotten errno)
    ]

unfoldable pub print_socket_opt_timeval : Answers → ℕ → Level → OptionName → OptionName → Printed
print_socket_opt_timeval k sockfd option_level option_name option_name_str =
    elim (k.as_timeval sockfd option_level option_name) [
      | inr optval ↦ (option_name_str, timeval optval.0 optval.1)
      | inl errno ↦ (option_name_str, perror)
    ]

unfoldable pub print_socket_opt_linger : Answers → ℕ → Level → OptionName → OptionName → Printed
print_socket_opt_linger k sockfd option_level option_name option_name_str =
    elim (k.as_linger sockfd option_level option_name) [
      | inr optval ↦ (option_name_str, linger (is_set optval.0) optval.1)
      | inl errno ↦ (option_name_str, perror)
    ]

-- `struct socket_option`; the name is that of an option, too.
pub record SocketOption : Type 0 where
  pub name : OptionName
  pub level : Level
  pub option : OptionName
  pub print : Answers → ℕ → Level → OptionName → OptionName → Printed

abbrev socket_option :
    OptionName
    → Level
    → OptionName
    → (Answers → ℕ → Level → OptionName → OptionName → Printed)
    → SocketOption
socket_option name level option print = record {
  name = name;
  level = level;
  option = option;
  print = print;
}

abbrev pub options : List SocketOption
options =
    socket_option so_acceptconn ipproto_tcp so_acceptconn print_socket_opt_bool
    ∷ socket_option so_broadcast sol_socket so_broadcast print_socket_opt_bool
    ∷ socket_option so_debug sol_socket so_debug print_socket_opt_bool
    ∷ socket_option so_dontroute sol_socket so_dontroute print_socket_opt_bool
    ∷ socket_option so_error sol_socket so_error print_socket_opt_int
    ∷ socket_option so_keepalive sol_socket so_keepalive print_socket_opt_bool
    ∷ socket_option so_linger sol_socket so_linger print_socket_opt_linger
    ∷ socket_option so_oobinline sol_socket so_oobinline print_socket_opt_bool
    ∷ socket_option so_rcvbuf sol_socket so_rcvbuf print_socket_opt_int
    ∷ socket_option so_rcvlowat sol_socket so_rcvlowat print_socket_opt_int
    ∷ socket_option so_rcvtimeo sol_socket so_rcvtimeo print_socket_opt_timeval
    ∷ socket_option so_reuseaddr sol_socket so_reuseaddr print_socket_opt_bool
    ∷ socket_option so_sndbuf sol_socket so_sndbuf print_socket_opt_int
    ∷ socket_option so_sndlowat sol_socket so_sndlowat print_socket_opt_int
    ∷ socket_option so_sndtimeo sol_socket so_sndtimeo print_socket_opt_timeval
    ∷ socket_option so_type sol_socket so_type print_socket_opt_int
    ∷ []

-- The loop over the options.
unfoldable pub print_options : Answers → ℕ → List SocketOption → List Printed
print_options k sockfd [] = []
print_options k sockfd (o ∷ os) =
    o.print k sockfd o.level o.option o.name ∷ print_options k sockfd os

module _ (sys : System) (v : World) (k : Answers) where
  unfoldable pub main : CommandLine → Run (Socket × List Printed × Log)
  main a = arguments a >>= λ (address, port). given address >>= λ address.
      convert_address sys address >>= λ addr. socket_create sys addr.ss_family sock_stream >>= λ s.
      socket_bind sys s addr port >>= λ s.
      let lines = print_options k s.sockfd options in
      socket_close v s.sockfd [] >>= λ log. returns (s, lines, log)
