-- ===== src/Cli/Getopt.antt =====
-- What `getopt` leaves of a command line, and how the programs read `argv` behind it.
use c_examples.Base.{
  ℕ, zero, suc, ◌+◌, ◌≤◌, ◌<◌, ◌≡◌, refl, ap, ◌∙◌, Bool, true, false, Option, none, some, List, [],
  ◌∷◌, length, drop, length-drop, ltb, ◌==◌, ◌||◌, if◌then◌else◌, arith,
}
use mathlib.Core.Path.{fun_ext}
use c_examples.Base.Run.{success, failure, Run, returns, exits, undefined, unfinished, ◌>>=◌, ◌>>◌}
use c_examples.Cli.Strto.{Str}

pub data Letter : Type 0 where
  opt_b opt_e opt_g opt_h opt_l opt_m opt_n opt_o opt_s opt_t opt_u : Letter

-- What a call of `getopt` returns, but -1.
pub data Opt : Type 0 where
  -- The option, and its `optarg` (of no meaning for one without an argument).
  letter : Letter → Str → Opt
  -- `?`, at an unknown option or a missing argument.
  question : Opt

-- `argv`, the calls of `getopt` until it returns -1, and `optind` then: the operands stand from there.
pub record CommandLine : Type 0 where
  pub argv : List Str
  pub opts : List Opt
  pub optind : ℕ

-- `optind` is an index of `argv`, or `argc`.
abbrev pub IsScanned : CommandLine → Type 0
IsScanned a = a.optind ≤ length a.argv

abbrev pub operands : CommandLine → List Str
operands a = drop a.optind a.argv

abbrev pub element : List Str → ℕ → Run (Option Str)
element [] zero = returns none
element [] (suc i) = undefined
element (s ∷ l) zero = returns (some s)
element (s ∷ l) (suc i) = element l i

-- `optind + k < argc`.
unfoldable pub has_more : CommandLine → ℕ → Bool
has_more a k = ltb (a.optind + k) (length a.argv)

-- `argv[optind + k]`: `argv[argc]` is NULL, and what lies behind it is not to be read.
unfoldable pub operand : CommandLine → ℕ → Run (Option Str)
operand a k = element a.argv (a.optind + k)

-- `optind == argc`.
unfoldable pub at_argc : CommandLine → Bool
at_argc a = a.optind == length a.argv

abbrev code : Letter → ℕ
code opt_b = 0
code opt_e = 1
code opt_g = 2
code opt_h = 3
code opt_l = 4
code opt_m = 5
code opt_n = 6
code opt_o = 7
code opt_s = 8
code opt_t = 9
code opt_u = 10

abbrev member : Letter → List Letter → Bool
member x [] = false
member x (y ∷ l) = (code x == code y) || member x l

-- How a loop over the options ends that knows `-h` and the letters of a list: at the first `-h` or
-- unknown option, if there is one.
abbrev pub stops : List Letter → List Opt → Run (Unit {0})
stops known [] = returns tt
stops known (letter opt_h _ ∷ os) = exits success
stops known (letter x _ ∷ os) =
    let rest = stops known os in if member x known then rest else exits failure
stops known (question ∷ os) = exits failure

-- The argument of the last occurrence of an option, or what was there before.
abbrev pub last_arg : Letter → List Opt → Option Str → Option Str
last_arg x [] found = found
last_arg x (letter y optarg ∷ os) found =
    last_arg x os (if code x == code y then some optarg else found)
last_arg x (question ∷ os) found = last_arg x os found

element-drop : (l : List Str) (i k : ℕ) → i ≤ length l → element l (i + k) ≡ element (drop i l) k
element-drop l zero k h = ap (element l) (omega arith)
element-drop [] (suc i) k h = absurd (omega arith)
element-drop (s ∷ l) (suc i) k h = rw shift (element-drop l i k (omega arith))
  where
    shift : suc i + k ≡ suc (i + k)
    shift = omega arith

-- The same command line without what stands before the operands.
abbrev pub behind : List Str → CommandLine
behind l = record { argv = l; opts = []; optind = 0 }

pub operand-operands : (a : CommandLine) → IsScanned a → operand a ≡ operand (behind (operands a))
unfolding operand
operand-operands a h =
    fun_ext (λ k. element-drop a.argv a.optind k h ∙ ap (element (operands a)) (omega arith))

pub has_more-operands :
    (a : CommandLine) → IsScanned a → has_more a ≡ has_more (behind (operands a))
unfolding has_more
has_more-operands a h = fun_ext (λ k. let e = length-drop a.optind a.argv in ground (arith, e))

pub at_argc-operands : (a : CommandLine) → IsScanned a → at_argc a ≡ at_argc (behind (operands a))
unfolding at_argc
at_argc-operands a h = let e = length-drop a.optind a.argv in ground (arith, e)

-- The code behind the loop of `getopt`, where the loop has been described.
pub run_assoc {ℓ κ μ} :
    {V : Type ℓ} {A : Type κ} {B : Type μ} (m : Run (Unit {0})) (v : V) (f : V → Run A)
    (g : A → Run B)
    → (((m >> returns v) >>= f) >>= g) ≡ (m >> (f v >>= g))
run_assoc (returns a) v f g = refl
run_assoc (exits c) v f g = refl
run_assoc undefined v f g = refl
run_assoc unfinished v f g = refl

pub has_more-behind : (l : List Str) (k : ℕ) → k < length l → has_more (behind l) k ≡ true
unfolding has_more
has_more-behind l k h = ground arith

pub at_argc-behind : (s : Str) (l : List Str) → at_argc (behind (s ∷ l)) ≡ false
unfolding at_argc
at_argc-behind s l = ground arith
