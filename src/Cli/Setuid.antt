-- ===== src/Cli/Setuid.antt =====
-- The command line of users/setuid/main.c: a user id.
use c_examples.Base.{ℕ, ◌≡◌, refl, ap, ◌∙◌, arith, not, Option, none, some, List, [], ◌∷◌}
use c_examples.Base.Run.{success, failure, Run, returns, exits, ◌>>=◌, ◌>>◌, require}
use c_examples.Cli.Strto.{Str}
use c_examples.Cli.Numbers.{parse_uid_t}
use c_examples.Cli.Getopt.{
  opt_h, Opt, letter, CommandLine, IsScanned, operands, behind, has_more, operand, at_argc, stops,
  operand-operands, has_more-operands, has_more-behind, run_assoc,
}

-- The loop of `getopt`.
abbrev pub options : List Opt → Run (Unit {0})
options [] = returns tt
options (letter opt_h _ ∷ os) = exits success
options (_ ∷ os) = exits failure

-- Behind the loop.
abbrev positional : CommandLine → Unit {0} → Run (Option Str)
positional a _ =
    require (has_more a 0) >> require (not (has_more a 1)) >> operand a 0 >>= λ user_id.
    returns user_id

abbrev pub parse_arguments : CommandLine → Run (Option Str)
parse_arguments a = options a.opts >>= positional a

abbrev pub handle_arguments : ℕ → Option Str → Run ℕ
handle_arguments size none = exits failure
handle_arguments size (some user_id) = parse_uid_t size user_id

-- What `main` does with them.
unfoldable pub arguments : ℕ → CommandLine → Run (ℕ)
arguments size a = parse_arguments a >>= λ user_id. handle_arguments size user_id

abbrev pub expected : ℕ → List Str → Run (ℕ)
expected size (user_id ∷ []) = parse_uid_t size user_id
expected size _ = exits failure

options-stops : (os : List Opt) → options os ≡ (stops [] os >> returns tt)
options-stops [] = refl
options-stops (letter opt_h optarg ∷ os) = refl
options-stops (o ∷ os) = refl

positional-expected :
    (size : ℕ) (l : List Str)
    → (positional (behind l) tt >>= λ user_id. handle_arguments size user_id) ≡ expected size l
unfolding has_more operand at_argc
positional-expected size [] = refl
positional-expected size (x ∷ []) = refl
positional-expected size (x ∷ y ∷ l) =
    rw (has_more-behind (x ∷ y ∷ l) 0 (omega arith), has_more-behind (x ∷ y ∷ l) 1 (omega arith))
      refl

-- Where `optind` is at most `argc`, users/setuid, for a `uid_t` of any size, reads no `argv` out
-- of range, and goes on exactly with one operand that is a user id in range, unless -h or an
-- unknown option ends it first.
pub setuid-arguments :
    (size : ℕ) (a : CommandLine)
    → IsScanned a
    → arguments size a ≡ (stops ([]) a.opts >> expected size (operands a))
unfolding arguments
setuid-arguments size a h = rw (options-stops a.opts) (
    run_assoc (stops ([]) a.opts) tt (positional a) _
    ∙ ap (λ r. stops ([]) a.opts >> r)
        (rw (has_more-operands a h, operand-operands a h) (positional-expected size (operands a))))
