-- ===== src/Cli/TcpClient.antt =====
-- The command line of tcp/shutdown/client.c: an address and a port.
use c_examples.Base.{ℕ, ◌≡◌, refl, ap, ◌∙◌, arith, not, Option, none, some, List, [], ◌∷◌}
use c_examples.Base.Run.{success, failure, Run, returns, exits, ◌>>=◌, ◌>>◌, require}
use c_examples.Cli.Strto.{Str}
use c_examples.Cli.Numbers
use c_examples.Cli.Numbers.{
  checked, parse_size_t, parse_unsigned_int, parse_positive_int, parse_int, parse_long,
  get_uid_t_max, parse_uid_t, get_off_t_min, get_off_t_max, parse_off_t,
}
use c_examples.Cli.TcpServer
use c_examples.Cli.TcpServer.{expected}
use c_examples.Cli.Getopt.{
  opt_h, Opt, letter, CommandLine, IsScanned, operands, behind, has_more, operand, at_argc, stops,
  operand-operands, has_more-operands, has_more-behind, run_assoc,
}

unfoldable pub parse_in_port_t : Str → Run ℕ
parse_in_port_t = Numbers.parse_in_port_t

-- The loop of `getopt`.
abbrev pub options : List Opt → Run (Unit {0})
options [] = returns tt
options (letter opt_h _ ∷ os) = exits success
options (_ ∷ os) = exits failure

-- Behind the loop.
abbrev positional : CommandLine → Unit {0} → Run (Option Str × Option Str)
positional a _ =
    require (has_more a 1) >> require (not (has_more a 2)) >> operand a 0 >>= λ target_address.
    operand a 1 >>= λ port. returns (target_address, port)

abbrev pub parse_arguments : CommandLine → Run (Option Str × Option Str)
parse_arguments a = options a.opts >>= positional a

abbrev pub handle_arguments : Option Str → Option Str → Run ℕ
handle_arguments none port_str = exits failure
handle_arguments (some target_address) none = exits failure
handle_arguments (some target_address) (some port_str) = parse_in_port_t port_str

-- What `main` does with them.
unfoldable pub arguments : CommandLine → Run (Option Str × ℕ)
arguments a = parse_arguments a >>= λ (target_address, port).
    handle_arguments target_address port >>= λ number. returns (target_address, number)

options-stops : (os : List Opt) → options os ≡ (stops [] os >> returns tt)
options-stops [] = refl
options-stops (letter opt_h optarg ∷ os) = refl
options-stops (o ∷ os) = refl

positional-expected :
    (l : List Str)
    → (positional (behind l) tt >>= λ (target_address, port).
        handle_arguments target_address port >>= λ number. returns (target_address, number))
      ≡ expected l
unfolding has_more operand at_argc parse_in_port_t TcpServer.parse_in_port_t
positional-expected [] = refl
positional-expected (x ∷ []) = refl
positional-expected (x ∷ y ∷ []) = refl
positional-expected (x ∷ y ∷ z ∷ l) =
    rw
      (
        has_more-behind (x ∷ y ∷ z ∷ l) 1 (omega arith),
        has_more-behind (x ∷ y ∷ z ∷ l) 2 (omega arith),
      )
      refl

-- tcp/shutdown/client.c reads no `argv` out of range, and goes on exactly with two operands, an address
-- and a port that `parse_in_port_t` accepts, unless -h or an unknown option ends it first.
pub tcp_client-arguments :
    (a : CommandLine) → IsScanned a → arguments a ≡ (stops ([]) a.opts >> expected (operands a))
unfolding arguments
tcp_client-arguments a h = rw (options-stops a.opts) (
    run_assoc (stops ([]) a.opts) tt (positional a) _
    ∙ ap (λ r. stops ([]) a.opts >> r)
        (rw (has_more-operands a h, operand-operands a h) (positional-expected (operands a))))
