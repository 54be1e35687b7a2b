-- ===== src/Cli/Sleep.antt =====
-- The command line of sleep/sleep/main.c: seconds. `getopt` knows -s there, and the loop does not.
use c_examples.Base.{ℕ, ◌≡◌, refl, ap, ◌∙◌, arith, not, Option, none, some, List, [], ◌∷◌}
use c_examples.Base.Run.{success, failure, Run, returns, exits, ◌>>=◌, ◌>>◌, require}
use c_examples.Cli.Strto.{Str}
use c_examples.Cli.Numbers.{parse_unsigned_int, parse_unsigned_int}
use c_examples.Cli.Getopt.{
  opt_h, Opt, letter, CommandLine, IsScanned, operands, behind, has_more, operand, at_argc, stops,
  operand-operands, has_more-operands, has_more-behind, run_assoc,
}

-- The loop of `getopt`.
abbrev pub options : List Opt → Run (Unit {0})
options [] = returns tt
options (letter opt_h _ ∷ os) = exits success
options (_ ∷ os) = exits failure

-- Behind the loop.
abbrev positional : CommandLine → Unit {0} → Run (Option Str)
positional a _ =
    require (has_more a 0) >> require (not (has_more a 1)) >> operand a 0 >>= λ seconds.
    returns seconds

abbrev pub parse_arguments : CommandLine → Run (Option Str)
parse_arguments a = options a.opts >>= positional a

abbrev pub handle_arguments : Option Str → Run ℕ
handle_arguments none = returns 0
handle_arguments (some seconds_str) = parse_unsigned_int seconds_str

-- What `main` does with them.
unfoldable pub arguments : CommandLine → Run (ℕ)
arguments a = parse_arguments a >>= λ seconds. handle_arguments seconds

abbrev pub expected : List Str → Run (ℕ)
expected (seconds ∷ []) = parse_unsigned_int seconds
expected _ = exits failure

options-stops : (os : List Opt) → options os ≡ (stops [] os >> returns tt)
options-stops [] = refl
options-stops (letter opt_h optarg ∷ os) = refl
options-stops (o ∷ os) = refl

positional-expected :
    (l : List Str) → (positional (behind l) tt >>= λ seconds. handle_arguments seconds) ≡ expected l
unfolding has_more operand at_argc
positional-expected [] = refl
positional-expected (x ∷ []) = refl
positional-expected (x ∷ y ∷ l) =
    rw (has_more-behind (x ∷ y ∷ l) 0 (omega arith), has_more-behind (x ∷ y ∷ l) 1 (omega arith))
      refl

-- Where `optind` is at most `argc`, sleep/sleep goes on exactly with one operand and no option:
-- -s, which `getopt` is told of, ends the program, and the default of 0 seconds is never taken,
-- unless -h or an unknown option ends it first.
pub sleep-arguments :
    (a : CommandLine) → IsScanned a → arguments a ≡ (stops ([]) a.opts >> expected (operands a))
unfolding arguments
sleep-arguments a h = rw (options-stops a.opts) (
    run_assoc (stops ([]) a.opts) tt (positional a) _
    ∙ ap (λ r. stops ([]) a.opts >> r)
        (rw (has_more-operands a h, operand-operands a h) (positional-expected (operands a))))
