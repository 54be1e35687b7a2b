-- ===== src/Cli/Chown.antt =====
-- The command line of file-system/chown/main.c: a path, -u <user id> and -g <group id>.
use c_examples.Base.{
  ℕ, ◌*◌, ◌^◌, ◌%◌, ◌≡◌, refl, ap, ◌∙◌, arith, true, not, ltb, Option, none, some, List, [], ◌∷◌,
}
use c_examples.Base.Run.{success, failure, Run, returns, exits, ◌>>=◌, ◌>>◌, require}
use c_examples.Cli.Strto.{Str, strtoumax}
use c_examples.Cli.Numbers.{checked, get_uid_t_max}
use c_examples.Cli.Getopt.{
  opt_g, opt_h, opt_u, Opt, letter, CommandLine, IsScanned, operands, behind, has_more, operand,
  at_argc, stops, last_arg, operand-operands, has_more-operands, has_more-behind, run_assoc,
}

unfoldable pub get_gid_t_max : ℕ → Run ℕ
get_gid_t_max = get_uid_t_max

-- Here the maximum is computed behind the tests of `errno` and `*endptr`.
unfoldable pub parse_id : (ℕ → Run ℕ) → ℕ → Str → Run ℕ
parse_id get_max size s = checked (λ v. true) (strtoumax s) >>= λ v.
    get_max size >>= λ max. require (not (ltb max v)) >> returns (v % 2 ^ (8 * size))

unfoldable pub parse_uid_t : ℕ → Str → Run ℕ
parse_uid_t = parse_id get_uid_t_max

unfoldable pub parse_gid_t : ℕ → Str → Run ℕ
parse_gid_t = parse_id get_gid_t_max

-- The loop of `getopt`.
abbrev pub options : List Opt → Option Str → Option Str → Run (Option Str × Option Str)
options [] user_id group_id = returns (user_id, group_id)
options (letter opt_u optarg ∷ os) user_id group_id = options os (some optarg) group_id
options (letter opt_g optarg ∷ os) user_id group_id = options os user_id (some optarg)
options (letter opt_h _ ∷ os) user_id group_id = exits success
options (_ ∷ os) user_id group_id = exits failure

-- Behind the loop.
abbrev positional :
    CommandLine → Option Str × Option Str → Run (Option Str × Option Str × Option Str)
positional a (user_id, group_id) =
    require (has_more a 0) >> require (not (has_more a 1)) >> operand a 0 >>= λ path.
    returns (user_id, group_id, path)

abbrev pub parse_arguments : CommandLine → Run (Option Str × Option Str × Option Str)
parse_arguments a = options a.opts none none >>= positional a

abbrev pub handle_arguments : ℕ → Option Str → Option Str → Option Str → Run (ℕ × ℕ)
handle_arguments size none user_id group_id = exits failure
handle_arguments size (some path) none group_id = exits failure
handle_arguments size (some path) (some user_id) none = exits failure
handle_arguments size (some path) (some user_id) (some group_id) =
    parse_uid_t size user_id >>= λ uid. parse_gid_t size group_id >>= λ gid. returns (uid, gid)

-- What `main` does with them.
unfoldable pub arguments : ℕ → CommandLine → Run (Option Str × ℕ × ℕ)
arguments size a = parse_arguments a >>= λ (user_id, group_id, path).
    handle_arguments size path user_id group_id >>= λ ids. returns (path, ids.0, ids.1)

abbrev pub expected : ℕ → Option Str → Option Str → List Str → Run (Option Str × ℕ × ℕ)
expected size (some user_id) (some group_id) (path ∷ []) =
    let both : Run (ℕ × ℕ) =
      parse_uid_t size user_id >>= λ uid. parse_gid_t size group_id >>= λ gid. returns (uid, gid) in
    both >>= λ ids. returns (some path, ids.0, ids.1)
expected size _ _ _ = exits failure

options-stops :
    (os : List Opt) (user_id group_id : Option Str)
    → options os user_id group_id ≡ (
        stops (opt_u ∷ opt_g ∷ []) os
        >> returns (last_arg opt_u os user_id, last_arg opt_g os group_id))
options-stops [] user_id group_id = refl
options-stops (letter opt_u optarg ∷ os) user_id group_id = options-stops os (some optarg) group_id
options-stops (letter opt_g optarg ∷ os) user_id group_id = options-stops os user_id (some optarg)
options-stops (letter opt_h optarg ∷ os) user_id group_id = refl
options-stops (o ∷ os) user_id group_id = refl

positional-expected :
    (size : ℕ) (user_id group_id : Option Str) (l : List Str)
    → (positional (behind l) (user_id, group_id) >>= λ (user_id, group_id, path).
        handle_arguments size path user_id group_id >>= λ ids. returns (path, ids.0, ids.1))
      ≡ expected size user_id group_id l
unfolding has_more operand at_argc
positional-expected size none none [] = refl
positional-expected size none (some v) [] = refl
positional-expected size (some u) none [] = refl
positional-expected size (some u) (some v) [] = refl
positional-expected size none none (x ∷ []) = refl
positional-expected size none (some v) (x ∷ []) = refl
positional-expected size (some u) none (x ∷ []) = refl
positional-expected size (some u) (some v) (x ∷ []) = refl
positional-expected size none none (x ∷ y ∷ l) =
    rw (has_more-behind (x ∷ y ∷ l) 0 (omega arith), has_more-behind (x ∷ y ∷ l) 1 (omega arith))
      refl
positional-expected size none (some v) (x ∷ y ∷ l) =
    rw (has_more-behind (x ∷ y ∷ l) 0 (omega arith), has_more-behind (x ∷ y ∷ l) 1 (omega arith))
      refl
positional-expected size (some u) none (x ∷ y ∷ l) =
    rw (has_more-behind (x ∷ y ∷ l) 0 (omega arith), has_more-behind (x ∷ y ∷ l) 1 (omega arith))
      refl
positional-expected size (some u) (some v) (x ∷ y ∷ l) =
    rw (has_more-behind (x ∷ y ∷ l) 0 (omega arith), has_more-behind (x ∷ y ∷ l) 1 (omega arith))
      refl

-- Where `optind` is at most `argc`, file-system/chown, for ids of any size, reads no `argv` out
-- of range, and goes on exactly with -u, -g and one operand, where both ids are in range, unless
-- -h or an unknown option ends it first.
pub chown-arguments :
    (size : ℕ) (a : CommandLine)
    → IsScanned a
    → arguments size a ≡ (
        stops (opt_u ∷ opt_g ∷ []) a.opts
        >> expected size (last_arg opt_u a.opts none) (last_arg opt_g a.opts none) (operands a))
unfolding arguments
chown-arguments size a h = rw (options-stops a.opts none none) (
    run_assoc (stops (opt_u ∷ opt_g ∷ []) a.opts)
      (last_arg opt_u a.opts none, last_arg opt_g a.opts none) (positional a) _
    ∙ ap (λ r. stops (opt_u ∷ opt_g ∷ []) a.opts >> r)
        (rw (has_more-operands a h, operand-operands a h)
          (positional-expected size (last_arg opt_u a.opts none) (last_arg opt_g a.opts none)
            (operands a))))
