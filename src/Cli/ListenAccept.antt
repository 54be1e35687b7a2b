-- ===== src/Cli/ListenAccept.antt =====
-- The command line of networking-functions/listen-accept/main.c: an address, a port, a message and -b <backlog>.
use c_examples.Base.{ℕ, ◌≡◌, refl, ap, ◌∙◌, arith, not, Option, none, some, List, [], ◌∷◌}
use c_examples.Base.Run.{success, failure, Run, returns, exits, ◌>>=◌, ◌>>◌, require}
use c_examples.Cli.Strto.{Str, ℤ}
use c_examples.Cli.Numbers
use c_examples.Cli.Numbers.{
  checked, parse_size_t, parse_unsigned_int, parse_positive_int, parse_int, parse_long,
  get_uid_t_max, parse_uid_t, get_off_t_min, get_off_t_max, parse_off_t,
}
use c_examples.Cli.Getopt.{
  opt_b, opt_h, Opt, letter, CommandLine, IsScanned, operands, behind, has_more, operand, at_argc,
  stops, last_arg, operand-operands, has_more-operands, has_more-behind, run_assoc,
}

unfoldable pub parse_in_port_t : Str → Run ℕ
parse_in_port_t = Numbers.parse_in_port_t

-- The loop of `getopt`.
abbrev pub options : List Opt → Option Str → Run (Option Str)
options [] backlog = returns backlog
options (letter opt_b optarg ∷ os) backlog = options os (some optarg)
options (letter opt_h _ ∷ os) backlog = exits success
options (_ ∷ os) backlog = exits failure

-- Behind the loop.
abbrev positional :
    CommandLine → Option Str → Run (Option Str × Option Str × Option Str × Option Str)
positional a backlog =
    require (has_more a 0)
    >> require (has_more a 1)
    >> require (not (has_more a 3))
    >> operand a 0
    >>= λ ip_address.
        operand a 1 >>= λ port. operand a 2 >>= λ msg. returns (backlog, ip_address, port, msg)

abbrev pub parse_arguments : CommandLine → Run (Option Str × Option Str × Option Str × Option Str)
parse_arguments a = options a.opts none >>= positional a

abbrev pub handle_arguments : Option Str → Option Str → Option Str → Option Str → Run (ℕ × ℤ)
handle_arguments none port_str backlog_str message = exits failure
handle_arguments (some ip_address) none backlog_str message = exits failure
handle_arguments (some ip_address) (some port_str) none message = exits failure
handle_arguments (some ip_address) (some port_str) (some backlog_str) none = exits failure
handle_arguments (some ip_address) (some port_str) (some backlog_str) (some message) =
    parse_in_port_t port_str >>= λ port.
    parse_positive_int backlog_str >>= λ backlog. returns (port, backlog)

-- What `main` does with them.
unfoldable pub arguments : CommandLine → Run (Option Str × Option Str × ℕ × ℤ)
arguments a = parse_arguments a >>= λ (backlog, ip_address, port, msg).
    handle_arguments ip_address port backlog msg >>= λ numbers.
    returns (ip_address, msg, numbers.0, numbers.1)

abbrev pub expected : Option Str → List Str → Run (Option Str × Option Str × ℕ × ℤ)
expected (some backlog) (ip_address ∷ port ∷ msg ∷ []) =
    let both : Run (ℕ × ℤ) = parse_in_port_t port >>= λ port.
    parse_positive_int backlog >>= λ backlog. returns (port, backlog) in
    both >>= λ numbers. returns (some ip_address, some msg, numbers.0, numbers.1)
expected _ _ = exits failure

options-stops :
    (os : List Opt) (backlog : Option Str)
    → options os backlog ≡ (stops (opt_b ∷ []) os >> returns (last_arg opt_b os backlog))
options-stops [] backlog = refl
options-stops (letter opt_b optarg ∷ os) backlog = options-stops os (some optarg)
options-stops (letter opt_h optarg ∷ os) backlog = refl
options-stops (o ∷ os) backlog = refl

positional-expected :
    (backlog : Option Str) (l : List Str)
    → (positional (behind l) backlog >>= λ (backlog, ip_address, port, msg).
        handle_arguments ip_address port backlog msg >>= λ numbers.
        returns (ip_address, msg, numbers.0, numbers.1))
      ≡ expected backlog l
unfolding has_more operand at_argc
positional-expected none [] = refl
positional-expected (some b) [] = refl
positional-expected none (x ∷ []) = refl
positional-expected (some b) (x ∷ []) = refl
positional-expected none (x ∷ y ∷ []) = refl
positional-expected (some b) (x ∷ y ∷ []) = refl
positional-expected none (x ∷ y ∷ z ∷ []) = refl
positional-expected (some b) (x ∷ y ∷ z ∷ []) = refl
positional-expected none (x ∷ y ∷ z ∷ w ∷ l) =
    rw
      (
        has_more-behind (x ∷ y ∷ z ∷ w ∷ l) 0 (omega arith),
        has_more-behind (x ∷ y ∷ z ∷ w ∷ l) 1 (omega arith),
        has_more-behind (x ∷ y ∷ z ∷ w ∷ l) 3 (omega arith),
      )
      refl
positional-expected (some b) (x ∷ y ∷ z ∷ w ∷ l) =
    rw
      (
        has_more-behind (x ∷ y ∷ z ∷ w ∷ l) 0 (omega arith),
        has_more-behind (x ∷ y ∷ z ∷ w ∷ l) 1 (omega arith),
        has_more-behind (x ∷ y ∷ z ∷ w ∷ l) 3 (omega arith),
      )
      refl

-- Where `optind` is at most `argc`, listen-accept reads no `argv` out of range, and goes on
-- exactly with -b, the last of which counts, and three operands, where the port and the backlog
-- are numbers in range, unless -h or an unknown option ends it first.
pub listen_accept-arguments :
    (a : CommandLine)
    → IsScanned a
    → arguments a
      ≡ (stops (opt_b ∷ []) a.opts >> expected (last_arg opt_b a.opts none) (operands a))
unfolding arguments
listen_accept-arguments a h = rw (options-stops a.opts none) (
    run_assoc (stops (opt_b ∷ []) a.opts) (last_arg opt_b a.opts none) (positional a) _
    ∙ ap (λ r. stops (opt_b ∷ []) a.opts >> r)
        (rw (has_more-operands a h, operand-operands a h)
          (positional-expected (last_arg opt_b a.opts none) (operands a))))
