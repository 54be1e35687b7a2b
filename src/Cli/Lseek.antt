-- ===== src/Cli/Lseek.antt =====
-- The command line of files/lseek/main.c: a file and -o <offset>.
use c_examples.Base.{ℕ, ◌≡◌, refl, ap, ◌∙◌, arith, not, Option, none, some, List, [], ◌∷◌}
use c_examples.Base.Run.{success, failure, Run, returns, exits, ◌>>=◌, ◌>>◌, require}
use c_examples.Cli.Strto.{Str, ℤ}
use c_examples.Cli.Numbers.{get_off_t_min, get_off_t_max, parse_off_t}
use c_examples.Cli.Getopt.{
  opt_h, opt_o, Opt, letter, CommandLine, IsScanned, operands, behind, has_more, operand, at_argc,
  stops, last_arg, operand-operands, has_more-operands, has_more-behind, run_assoc,
}

-- The loop of `getopt`.
abbrev pub options : List Opt → Option Str → Run (Option Str)
options [] offset = returns offset
options (letter opt_o optarg ∷ os) offset = options os (some optarg)
options (letter opt_h _ ∷ os) offset = exits success
options (_ ∷ os) offset = exits failure

-- Behind the loop.
abbrev positional : CommandLine → Option Str → Run (Option Str × Option Str)
positional a offset =
    require (has_more a 0) >> require (not (has_more a 1)) >> operand a 0 >>= λ file_path.
    returns (offset, file_path)

abbrev pub parse_arguments : CommandLine → Run (Option Str × Option Str)
parse_arguments a = options a.opts none >>= positional a

abbrev pub handle_arguments : ℕ → Option Str → Option Str → Run ℤ
handle_arguments size none offset_str = exits failure
handle_arguments size (some file_path) none = exits failure
handle_arguments size (some file_path) (some offset_str) =
    get_off_t_min size >>= λ min. get_off_t_max size >>= λ max. parse_off_t min max offset_str

-- What `main` does with them.
unfoldable pub arguments : ℕ → CommandLine → Run (Option Str × ℤ)
arguments size a = parse_arguments a >>= λ (offset, file_path).
    handle_arguments size file_path offset >>= λ number. returns (file_path, number)

abbrev pub expected : ℕ → Option Str → List Str → Run (Option Str × ℤ)
expected size (some offset) (file_path ∷ []) =
    (get_off_t_min size >>= λ min. get_off_t_max size >>= λ max. parse_off_t min max offset)
    >>= λ number. returns (some file_path, number)
expected size _ _ = exits failure

options-stops :
    (os : List Opt) (offset : Option Str)
    → options os offset ≡ (stops (opt_o ∷ []) os >> returns (last_arg opt_o os offset))
options-stops [] offset = refl
options-stops (letter opt_o optarg ∷ os) offset = options-stops os (some optarg)
options-stops (letter opt_h optarg ∷ os) offset = refl
options-stops (o ∷ os) offset = refl

positional-expected :
    (size : ℕ) (offset : Option Str) (l : List Str)
    → (positional (behind l) offset >>= λ (offset, file_path).
        handle_arguments size file_path offset >>= λ number. returns (file_path, number))
      ≡ expected size offset l
unfolding has_more operand at_argc
positional-expected size none [] = refl
positional-expected size (some u) [] = refl
positional-expected size none (x ∷ []) = refl
positional-expected size (some u) (x ∷ []) = refl
positional-expected size none (x ∷ y ∷ l) =
    rw (has_more-behind (x ∷ y ∷ l) 0 (omega arith), has_more-behind (x ∷ y ∷ l) 1 (omega arith))
      refl
positional-expected size (some u) (x ∷ y ∷ l) =
    rw (has_more-behind (x ∷ y ∷ l) 0 (omega arith), has_more-behind (x ∷ y ∷ l) 1 (omega arith))
      refl

-- Where `optind` is at most `argc`, files/lseek, for an `off_t` of any size, reads no `argv` out
-- of range, and goes on exactly with -o, the last of which counts, and one operand, where the
-- offset is in range, unless -h or an unknown option ends it first.
pub lseek-arguments :
    (size : ℕ) (a : CommandLine)
    → IsScanned a
    → arguments size a
      ≡ (stops (opt_o ∷ []) a.opts >> expected size (last_arg opt_o a.opts none) (operands a))
unfolding arguments
lseek-arguments size a h = rw (options-stops a.opts none) (
    run_assoc (stops (opt_o ∷ []) a.opts) (last_arg opt_o a.opts none) (positional a) _
    ∙ ap (λ r. stops (opt_o ∷ []) a.opts >> r)
        (rw (has_more-operands a h, operand-operands a h)
          (positional-expected size (last_arg opt_o a.opts none) (operands a))))
