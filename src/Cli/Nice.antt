-- ===== src/Cli/Nice.antt =====
-- The command line of process/nice/main.c: an increment.
use c_examples.Base.{◌≡◌, refl, ap, ◌∙◌, arith, not, Option, none, some, List, [], ◌∷◌}
use c_examples.Base.Run.{success, failure, Run, returns, exits, ◌>>=◌, ◌>>◌, require}
use c_examples.Cli.Strto.{Str, ℤ}
use c_examples.Cli.Numbers.{parse_int}
use c_examples.Cli.Getopt.{
  opt_h, Opt, letter, CommandLine, IsScanned, operands, behind, has_more, operand, at_argc, stops,
  operand-operands, has_more-operands, has_more-behind, run_assoc,
}

-- The loop of `getopt`.
abbrev pub options : List Opt → Run (Unit {0})
options [] = returns tt
options (letter opt_h _ ∷ os) = exits success
options (_ ∷ os) = exits failure

-- Behind the loop.
abbrev positional : CommandLine → Unit {0} → Run (Option Str)
positional a _ =
    require (has_more a 0) >> require (not (has_more a 1)) >> operand a 0 >>= λ increment.
    returns increment

abbrev pub parse_arguments : CommandLine → Run (Option Str)
parse_arguments a = options a.opts >>= positional a

abbrev pub handle_arguments : Option Str → Run ℤ
handle_arguments none = exits failure
handle_arguments (some increment_str) = parse_int increment_str

-- What `main` does with them.
unfoldable pub arguments : CommandLine → Run (ℤ)
arguments a = parse_arguments a >>= λ increment. handle_arguments increment

abbrev pub expected : List Str → Run (ℤ)
expected (increment ∷ []) = parse_int increment
expected _ = exits failure

options-stops : (os : List Opt) → options os ≡ (stops [] os >> returns tt)
options-stops [] = refl
options-stops (letter opt_h optarg ∷ os) = refl
options-stops (o ∷ os) = refl

positional-expected :
    (l : List Str)
    → (positional (behind l) tt >>= λ increment. handle_arguments increment) ≡ expected l
unfolding has_more operand at_argc
positional-expected [] = refl
positional-expected (x ∷ []) = refl
positional-expected (x ∷ y ∷ l) =
    rw (has_more-behind (x ∷ y ∷ l) 0 (omega arith), has_more-behind (x ∷ y ∷ l) 1 (omega arith))
      refl

-- Where `optind` is at most `argc`, process/nice goes on exactly with one operand, an `int`, and
-- no option: -s, which `getopt` is told of, ends the program, unless -h or an unknown option ends
-- it first.
pub nice-arguments :
    (a : CommandLine) → IsScanned a → arguments a ≡ (stops ([]) a.opts >> expected (operands a))
unfolding arguments
nice-arguments a h = rw (options-stops a.opts) (
    run_assoc (stops ([]) a.opts) tt (positional a) _
    ∙ ap (λ r. stops ([]) a.opts >> r)
        (rw (has_more-operands a h, operand-operands a h) (positional-expected (operands a))))
