-- ===== src/Cli/TimedWait.antt =====
-- The command line of pthread-condition/pthread_cond_timedwait/main.c: -m <seconds> and -t <seconds>.
use c_examples.Base.{ℕ, ◌≡◌, refl, ap, ◌∙◌, Option, none, some, List, [], ◌∷◌}
use c_examples.Base.Run.{success, failure, Run, returns, exits, ◌>>=◌, ◌>>◌, require}
use c_examples.Cli.Strto.{Str, ℤ}
use c_examples.Cli.Numbers
use c_examples.Cli.Numbers.{
  checked, parse_size_t, parse_positive_int, parse_int, parse_long, get_uid_t_max, parse_uid_t,
  get_off_t_min, get_off_t_max, parse_off_t,
}
use c_examples.Cli.Getopt.{
  opt_h, opt_m, opt_t, Opt, letter, CommandLine, IsScanned, operands, behind, has_more, operand,
  at_argc, stops, last_arg, at_argc-operands, at_argc-behind, run_assoc,
}

-- For a `time_t` of so many bytes; `char` is signed.
unfoldable pub get_time_t_min : ℕ → Run ℤ
get_time_t_min = get_off_t_min

unfoldable pub get_time_t_max : ℕ → Run ℤ
get_time_t_max = get_off_t_max

unfoldable pub parse_time_t : ℤ → ℤ → Str → Run ℤ
parse_time_t = parse_off_t

abbrev pub parse_in_range : ℕ → Str → Run ℤ
parse_in_range size s =
    get_time_t_min size >>= λ min. get_time_t_max size >>= λ max. parse_time_t min max s

unfoldable pub parse_unsigned_int : Str → Run ℕ
parse_unsigned_int = Numbers.parse_unsigned_int

-- The loop of `getopt`.
abbrev pub options : List Opt → Option Str → Option Str → Run (Option Str × Option Str)
options [] main_seconds thread_seconds = returns (main_seconds, thread_seconds)
options (letter opt_m optarg ∷ os) main_seconds thread_seconds =
    options os (some optarg) thread_seconds
options (letter opt_t optarg ∷ os) main_seconds thread_seconds =
    options os main_seconds (some optarg)
options (letter opt_h _ ∷ os) main_seconds thread_seconds = exits success
options (_ ∷ os) main_seconds thread_seconds = exits failure

-- Behind the loop.
abbrev positional : CommandLine → Option Str × Option Str → Run (Option Str × Option Str)
positional a (main_seconds, thread_seconds) =
    require (at_argc a) >> returns (main_seconds, thread_seconds)

abbrev pub parse_arguments : CommandLine → Run (Option Str × Option Str)
parse_arguments a = options a.opts none none >>= positional a

abbrev pub handle_arguments : ℕ → Option Str → Option Str → Run (ℤ × ℕ)
handle_arguments size none thread_seconds_str = exits failure
handle_arguments size (some main_seconds_str) none = exits failure
handle_arguments size (some main_seconds_str) (some thread_seconds_str) =
    parse_in_range size main_seconds_str >>= λ main_seconds.
    parse_unsigned_int thread_seconds_str >>= λ thread_seconds.
    returns (main_seconds, thread_seconds)

-- What `main` does with them.
unfoldable pub arguments : ℕ → CommandLine → Run (ℤ × ℕ)
arguments size a = parse_arguments a >>= λ (main_seconds, thread_seconds).
    handle_arguments size main_seconds thread_seconds

abbrev pub expected : ℕ → Option Str → Option Str → List Str → Run (ℤ × ℕ)
expected size (some main_seconds) (some thread_seconds) [] =
    parse_in_range size main_seconds >>= λ m.
    parse_unsigned_int thread_seconds >>= λ t. returns (m, t)
expected size _ _ _ = exits failure

options-stops :
    (os : List Opt) (main_seconds thread_seconds : Option Str)
    → options os main_seconds thread_seconds ≡ (
        stops (opt_m ∷ opt_t ∷ []) os
        >> returns (last_arg opt_m os main_seconds, last_arg opt_t os thread_seconds))
options-stops [] main_seconds thread_seconds = refl
options-stops (letter opt_m optarg ∷ os) main_seconds thread_seconds =
    options-stops os (some optarg) thread_seconds
options-stops (letter opt_t optarg ∷ os) main_seconds thread_seconds =
    options-stops os main_seconds (some optarg)
options-stops (letter opt_h optarg ∷ os) main_seconds thread_seconds = refl
options-stops (o ∷ os) main_seconds thread_seconds = refl

positional-expected :
    (size : ℕ) (main_seconds thread_seconds : Option Str) (l : List Str)
    → (positional (behind l) (main_seconds, thread_seconds) >>= λ (main_seconds, thread_seconds).
        handle_arguments size main_seconds thread_seconds)
      ≡ expected size main_seconds thread_seconds l
unfolding has_more operand at_argc
positional-expected size none none [] = refl
positional-expected size none (some v) [] = refl
positional-expected size (some u) none [] = refl
positional-expected size (some u) (some v) [] = refl
positional-expected size none none (x ∷ l) = rw (at_argc-behind x l) refl
positional-expected size none (some v) (x ∷ l) = rw (at_argc-behind x l) refl
positional-expected size (some u) none (x ∷ l) = rw (at_argc-behind x l) refl
positional-expected size (some u) (some v) (x ∷ l) = rw (at_argc-behind x l) refl

-- Where `optind` is at most `argc`, pthread_cond_timedwait goes on exactly with no operand and
-- both -m and -t, in range, where the last of each counts, unless -h or an unknown option ends it
-- first.
pub timed_wait-arguments :
    (size : ℕ) (a : CommandLine)
    → IsScanned a
    → arguments size a ≡ (
        stops (opt_m ∷ opt_t ∷ []) a.opts
        >> expected size (last_arg opt_m a.opts none) (last_arg opt_t a.opts none) (operands a))
unfolding arguments
timed_wait-arguments size a h = rw (options-stops a.opts none none) (
    run_assoc (stops (opt_m ∷ opt_t ∷ []) a.opts)
      (last_arg opt_m a.opts none, last_arg opt_t a.opts none) (positional a) _
    ∙ ap (λ r. stops (opt_m ∷ opt_t ∷ []) a.opts >> r)
        (rw (at_argc-operands a h) (
          positional-expected size (last_arg opt_m a.opts none) (last_arg opt_t a.opts none)
            (operands a))))
