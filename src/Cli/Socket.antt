-- ===== src/Cli/Socket.antt =====
-- The command line of networking-functions/socket/main.c: an address family and a socket type.
use c_examples.Base.{
  ◌≡◌, refl, ap, ◌∙◌, arith, Bool, true, false, not, Option, none, some, List, [], ◌∷◌,
}
use c_examples.Base.Run.{success, failure, Run, returns, exits, ◌>>=◌, ◌>>◌, require}
use c_examples.Cli.Strto.{Str}
use c_examples.Net.Address.{
  Family, af_inet, af_inet6, af_unix, SocketType, sock_stream, sock_dgram, sock_raw, sock_seqpacket,
}
use c_examples.Base.{◌==◌, ◌&&◌, if◌then◌else◌}
use c_examples.Cli.Getopt.{
  opt_h, Opt, letter, CommandLine, IsScanned, operands, behind, has_more, operand, at_argc, stops,
  operand-operands, has_more-operands, has_more-behind, run_assoc,
}

abbrev pub strings_equal : Str → Str → Bool
strings_equal [] [] = true
strings_equal (c ∷ s) (d ∷ t) = (c == d) && strings_equal s t
strings_equal _ _ = false

-- "AF_INET".
abbrev pub af_inet_str : Str
af_inet_str = 65 ∷ 70 ∷ 95 ∷ 73 ∷ 78 ∷ 69 ∷ 84 ∷ []

-- "AF_INET6".
abbrev pub af_inet6_str : Str
af_inet6_str = 65 ∷ 70 ∷ 95 ∷ 73 ∷ 78 ∷ 69 ∷ 84 ∷ 54 ∷ []

-- "AF_UNIX".
abbrev pub af_unix_str : Str
af_unix_str = 65 ∷ 70 ∷ 95 ∷ 85 ∷ 78 ∷ 73 ∷ 88 ∷ []

-- "SOCK_STREAM".
abbrev pub sock_stream_str : Str
sock_stream_str = 83 ∷ 79 ∷ 67 ∷ 75 ∷ 95 ∷ 83 ∷ 84 ∷ 82 ∷ 69 ∷ 65 ∷ 77 ∷ []

-- "SOCK_DGRAM".
abbrev pub sock_dgram_str : Str
sock_dgram_str = 83 ∷ 79 ∷ 67 ∷ 75 ∷ 95 ∷ 68 ∷ 71 ∷ 82 ∷ 65 ∷ 77 ∷ []

-- "SOCK_RAW".
abbrev pub sock_raw_str : Str
sock_raw_str = 83 ∷ 79 ∷ 67 ∷ 75 ∷ 95 ∷ 82 ∷ 65 ∷ 87 ∷ []

-- "SOCK_SEQPACKET".
abbrev pub sock_seqpacket_str : Str
sock_seqpacket_str = 83 ∷ 79 ∷ 67 ∷ 75 ∷ 95 ∷ 83 ∷ 69 ∷ 81 ∷ 80 ∷ 65 ∷ 67 ∷ 75 ∷ 69 ∷ 84 ∷ []

unfoldable pub string_to_address_family : Option Str → Run Family
string_to_address_family none = exits failure
string_to_address_family (some address_family_str) =
    if strings_equal address_family_str af_inet_str
    then returns af_inet
    else if strings_equal address_family_str af_inet6_str
    then returns af_inet6
    else if strings_equal address_family_str af_unix_str
    then returns af_unix
    else exits failure

unfoldable pub string_to_socket_type : Option Str → Run SocketType
string_to_socket_type none = exits failure
string_to_socket_type (some socket_type_str) =
    if strings_equal socket_type_str sock_stream_str
    then returns sock_stream
    else if strings_equal socket_type_str sock_dgram_str
    then returns sock_dgram
    else if strings_equal socket_type_str sock_raw_str
    then returns sock_raw
    else if strings_equal socket_type_str sock_seqpacket_str
    then returns sock_seqpacket
    else exits failure

-- The loop of `getopt`.
abbrev pub options : List Opt → Run (Unit {0})
options [] = returns tt
options (letter opt_h _ ∷ os) = exits success
options (_ ∷ os) = exits failure

-- Behind the loop.
abbrev positional : CommandLine → Unit {0} → Run (Option Str × Option Str)
positional a _ =
    require (has_more a 1) >> require (not (has_more a 2)) >> operand a 0 >>= λ address_family_str.
    operand a 1 >>= λ socket_type_str. returns (address_family_str, socket_type_str)

abbrev pub parse_arguments : CommandLine → Run (Option Str × Option Str)
parse_arguments a = options a.opts >>= positional a

abbrev pub handle_arguments : Option Str → Option Str → Run (Family × SocketType)
handle_arguments none socket_type_str = exits failure
handle_arguments (some address_family_str) none = exits failure
handle_arguments (some address_family_str) (some socket_type_str) =
    string_to_address_family (some address_family_str) >>= λ address_family.
    string_to_socket_type (some socket_type_str) >>= λ socket_type.
    returns (address_family, socket_type)

-- What `main` does with them.
unfoldable pub arguments : CommandLine → Run (Family × SocketType)
arguments a = parse_arguments a >>= λ (address_family_str, socket_type_str).
    handle_arguments address_family_str socket_type_str

abbrev pub expected : List Str → Run (Family × SocketType)
expected (address_family_str ∷ socket_type_str ∷ []) =
    string_to_address_family (some address_family_str) >>= λ address_family.
    string_to_socket_type (some socket_type_str) >>= λ socket_type.
    returns (address_family, socket_type)
expected _ = exits failure

options-stops : (os : List Opt) → options os ≡ (stops [] os >> returns tt)
options-stops [] = refl
options-stops (letter opt_h optarg ∷ os) = refl
options-stops (o ∷ os) = refl

positional-expected :
    (l : List Str)
    → (positional (behind l) tt >>= λ (address_family_str, socket_type_str).
        handle_arguments address_family_str socket_type_str)
      ≡ expected l
unfolding has_more operand at_argc
positional-expected [] = refl
positional-expected (x ∷ []) = refl
positional-expected (x ∷ y ∷ []) = refl
positional-expected (x ∷ y ∷ z ∷ l) =
    rw
      (
        has_more-behind (x ∷ y ∷ z ∷ l) 1 (omega arith),
        has_more-behind (x ∷ y ∷ z ∷ l) 2 (omega arith),
      )
      refl

-- networking-functions/socket/main.c reads no `argv` out of range, and goes on exactly with two operands,
-- the names of an address family and of a socket type, unless -h or an unknown option ends it first.
pub socket-arguments :
    (a : CommandLine) → IsScanned a → arguments a ≡ (stops ([]) a.opts >> expected (operands a))
unfolding arguments
socket-arguments a h = rw (options-stops a.opts) (
    run_assoc (stops ([]) a.opts) tt (positional a) _
    ∙ ap (λ r. stops ([]) a.opts >> r)
        (rw (has_more-operands a h, operand-operands a h) (positional-expected (operands a))))
