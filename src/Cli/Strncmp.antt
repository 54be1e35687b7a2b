-- ===== src/Cli/Strncmp.antt =====
-- The command line of strings/strncmp/main.c: two strings and -n <n>.
use c_examples.Base.{ℕ, ◌≡◌, refl, ap, ◌∙◌, arith, not, Option, none, some, List, [], ◌∷◌}
use c_examples.Base.Run.{success, failure, Run, returns, exits, ◌>>=◌, ◌>>◌, require}
use c_examples.Cli.Strto.{Str}
use c_examples.Cli.Numbers
use c_examples.Cli.Numbers.{
  checked, parse_unsigned_int, parse_positive_int, parse_int, parse_long, get_uid_t_max,
  parse_uid_t, get_off_t_min, get_off_t_max, parse_off_t,
}
use c_examples.Cli.Getopt.{
  opt_h, opt_n, Opt, letter, CommandLine, IsScanned, operands, behind, has_more, operand, at_argc,
  stops, last_arg, operand-operands, has_more-operands, has_more-behind, run_assoc,
}

unfoldable pub parse_size_t : Str → Run ℕ
parse_size_t = Numbers.parse_size_t

-- The loop of `getopt`.
abbrev pub options : List Opt → Option Str → Run (Option Str)
options [] n = returns n
options (letter opt_n optarg ∷ os) n = options os (some optarg)
options (letter opt_h _ ∷ os) n = exits success
options (_ ∷ os) n = exits failure

-- Behind the loop.
abbrev positional : CommandLine → Option Str → Run (Option Str × Option Str × Option Str)
positional a n =
    require (has_more a 0)
    >> require (has_more a 1)
    >> require (not (has_more a 2))
    >> operand a 0
    >>= λ string1. operand a 1 >>= λ string2. returns (n, string1, string2)

abbrev pub parse_arguments : CommandLine → Run (Option Str × Option Str × Option Str)
parse_arguments a = options a.opts none >>= positional a

abbrev pub handle_arguments : Option Str → Option Str → Option Str → Run ℕ
handle_arguments none string1 string2 = exits failure
handle_arguments (some n_str) none string2 = exits failure
handle_arguments (some n_str) (some string1) none = exits failure
handle_arguments (some n_str) (some string1) (some string2) = parse_size_t n_str

-- What `main` does with them.
unfoldable pub arguments : CommandLine → Run (Option Str × Option Str × ℕ)
arguments a = parse_arguments a >>= λ (n, string1, string2).
    handle_arguments n string1 string2 >>= λ number. returns (string1, string2, number)

abbrev pub expected : Option Str → List Str → Run (Option Str × Option Str × ℕ)
expected (some n) (string1 ∷ string2 ∷ []) =
    parse_size_t n >>= λ number. returns (some string1, some string2, number)
expected _ _ = exits failure

options-stops :
    (os : List Opt) (n : Option Str)
    → options os n ≡ (stops (opt_n ∷ []) os >> returns (last_arg opt_n os n))
options-stops [] n = refl
options-stops (letter opt_n optarg ∷ os) n = options-stops os (some optarg)
options-stops (letter opt_h optarg ∷ os) n = refl
options-stops (o ∷ os) n = refl

positional-expected :
    (n : Option Str) (l : List Str)
    → (positional (behind l) n >>= λ (n, string1, string2).
        handle_arguments n string1 string2 >>= λ number. returns (string1, string2, number))
      ≡ expected n l
unfolding has_more operand at_argc
positional-expected none [] = refl
positional-expected (some u) [] = refl
positional-expected none (x ∷ []) = refl
positional-expected (some u) (x ∷ []) = refl
positional-expected none (x ∷ y ∷ []) = refl
positional-expected (some u) (x ∷ y ∷ []) = refl
positional-expected none (x ∷ y ∷ z ∷ l) =
    rw
      (
        has_more-behind (x ∷ y ∷ z ∷ l) 0 (omega arith),
        has_more-behind (x ∷ y ∷ z ∷ l) 1 (omega arith),
        has_more-behind (x ∷ y ∷ z ∷ l) 2 (omega arith),
      )
      refl
positional-expected (some u) (x ∷ y ∷ z ∷ l) =
    rw
      (
        has_more-behind (x ∷ y ∷ z ∷ l) 0 (omega arith),
        has_more-behind (x ∷ y ∷ z ∷ l) 1 (omega arith),
        has_more-behind (x ∷ y ∷ z ∷ l) 2 (omega arith),
      )
      refl

-- Where `optind` is at most `argc`, strings/strncmp reads no `argv` out of range, and goes on
-- exactly with -n, the last of which counts, and two operands, unless -h or an unknown option
-- ends it first.
pub strncmp-arguments :
    (a : CommandLine)
    → IsScanned a
    → arguments a
      ≡ (stops (opt_n ∷ []) a.opts >> expected (last_arg opt_n a.opts none) (operands a))
unfolding arguments
strncmp-arguments a h = rw (options-stops a.opts none) (
    run_assoc (stops (opt_n ∷ []) a.opts) (last_arg opt_n a.opts none) (positional a) _
    ∙ ap (λ r. stops (opt_n ∷ []) a.opts >> r)
        (rw (has_more-operands a h, operand-operands a h)
          (positional-expected (last_arg opt_n a.opts none) (operands a))))
