-- ===== src/Cli/Nanosleep.antt =====
-- The command line of sleep/nanosleep/main.c: -s <seconds> and -n <nanoseconds>.
use c_examples.Base.{ℕ, ◌≡◌, refl, ap, ◌∙◌, Option, none, some, List, [], ◌∷◌}
use c_examples.Base.Run.{success, failure, Run, returns, exits, ◌>>=◌, ◌>>◌, require}
use c_examples.Cli.Strto.{Str, ℤ, pos}
use c_examples.Cli.Numbers.{parse_long, get_off_t_min, get_off_t_max, parse_off_t}
use c_examples.Cli.Getopt.{
  opt_h, opt_n, opt_s, Opt, letter, CommandLine, IsScanned, operands, behind, has_more, operand,
  at_argc, stops, last_arg, at_argc-operands, at_argc-behind, run_assoc,
}

-- For a `time_t` of so many bytes; `char` is signed.
unfoldable pub get_time_t_min : ℕ → Run ℤ
get_time_t_min = get_off_t_min

unfoldable pub get_time_t_max : ℕ → Run ℤ
get_time_t_max = get_off_t_max

unfoldable pub parse_time_t : ℤ → ℤ → Str → Run ℤ
parse_time_t = parse_off_t

abbrev pub parse_in_range : ℕ → Str → Run ℤ
parse_in_range size s =
    get_time_t_min size >>= λ min. get_time_t_max size >>= λ max. parse_time_t min max s

-- The loop of `getopt`.
abbrev pub options : List Opt → Option Str → Option Str → Run (Option Str × Option Str)
options [] seconds nanoseconds = returns (seconds, nanoseconds)
options (letter opt_s optarg ∷ os) seconds nanoseconds = options os (some optarg) nanoseconds
options (letter opt_n optarg ∷ os) seconds nanoseconds = options os seconds (some optarg)
options (letter opt_h _ ∷ os) seconds nanoseconds = exits success
options (_ ∷ os) seconds nanoseconds = exits failure

-- Behind the loop.
abbrev positional : CommandLine → Option Str × Option Str → Run (Option Str × Option Str)
positional a (seconds, nanoseconds) = require (at_argc a) >> returns (seconds, nanoseconds)

abbrev pub parse_arguments : CommandLine → Run (Option Str × Option Str)
parse_arguments a = options a.opts none none >>= positional a

abbrev pub handle_arguments : ℕ → Option Str → Option Str → Run (ℤ × ℤ)
handle_arguments size none none = exits failure
handle_arguments size (some seconds_str) none =
    parse_in_range size seconds_str >>= λ seconds. returns (seconds, pos 0)
handle_arguments size none (some nanoseconds_str) =
    parse_long nanoseconds_str >>= λ nanoseconds. returns (pos 0, nanoseconds)
handle_arguments size (some seconds_str) (some nanoseconds_str) =
    parse_in_range size seconds_str >>= λ seconds.
    parse_long nanoseconds_str >>= λ nanoseconds. returns (seconds, nanoseconds)

-- What `main` does with them.
unfoldable pub arguments : ℕ → CommandLine → Run (ℤ × ℤ)
arguments size a =
    parse_arguments a >>= λ (seconds, nanoseconds). handle_arguments size seconds nanoseconds

abbrev pub expected : ℕ → Option Str → Option Str → List Str → Run (ℤ × ℤ)
expected size none none [] = exits failure
expected size (some seconds) none [] = parse_in_range size seconds >>= λ s. returns (s, pos 0)
expected size none (some nanoseconds) [] = parse_long nanoseconds >>= λ n. returns (pos 0, n)
expected size (some seconds) (some nanoseconds) [] =
    parse_in_range size seconds >>= λ s. parse_long nanoseconds >>= λ n. returns (s, n)
expected size _ _ (_ ∷ _) = exits failure

options-stops :
    (os : List Opt) (seconds nanoseconds : Option Str)
    → options os seconds nanoseconds ≡ (
        stops (opt_s ∷ opt_n ∷ []) os
        >> returns (last_arg opt_s os seconds, last_arg opt_n os nanoseconds))
options-stops [] seconds nanoseconds = refl
options-stops (letter opt_s optarg ∷ os) seconds nanoseconds =
    options-stops os (some optarg) nanoseconds
options-stops (letter opt_n optarg ∷ os) seconds nanoseconds =
    options-stops os seconds (some optarg)
options-stops (letter opt_h optarg ∷ os) seconds nanoseconds = refl
options-stops (o ∷ os) seconds nanoseconds = refl

positional-expected :
    (size : ℕ) (seconds nanoseconds : Option Str) (l : List Str)
    → (positional (behind l) (seconds, nanoseconds) >>= λ (seconds, nanoseconds).
        handle_arguments size seconds nanoseconds)
      ≡ expected size seconds nanoseconds l
unfolding has_more operand at_argc
positional-expected size none none [] = refl
positional-expected size none (some v) [] = refl
positional-expected size (some u) none [] = refl
positional-expected size (some u) (some v) [] = refl
positional-expected size none none (x ∷ l) = rw (at_argc-behind x l) refl
positional-expected size none (some v) (x ∷ l) = rw (at_argc-behind x l) refl
positional-expected size (some u) none (x ∷ l) = rw (at_argc-behind x l) refl
positional-expected size (some u) (some v) (x ∷ l) = rw (at_argc-behind x l) refl

-- Where `optind` is at most `argc`, sleep/nanosleep goes on exactly with no operand and at least
-- one of -s and -n, in range; the other counts as 0, unless -h or an unknown option ends it
-- first.
pub nanosleep-arguments :
    (size : ℕ) (a : CommandLine)
    → IsScanned a
    → arguments size a ≡ (
        stops (opt_s ∷ opt_n ∷ []) a.opts
        >> expected size (last_arg opt_s a.opts none) (last_arg opt_n a.opts none) (operands a))
unfolding arguments
nanosleep-arguments size a h = rw (options-stops a.opts none none) (
    run_assoc (stops (opt_s ∷ opt_n ∷ []) a.opts)
      (last_arg opt_s a.opts none, last_arg opt_n a.opts none) (positional a) _
    ∙ ap (λ r. stops (opt_s ∷ opt_n ∷ []) a.opts >> r)
        (rw (at_argc-operands a h) (
          positional-expected size (last_arg opt_s a.opts none) (last_arg opt_n a.opts none)
            (operands a))))
