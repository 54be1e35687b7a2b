-- ===== src/Tests/Cli.antt =====
-- Command lines and numbers, at concrete inputs. The strings are codes of characters.
use c_examples.Base.{◌-◌, ◌^◌, ◌≡◌, refl, arith, [], ◌∷◌}
use c_examples.Base.Run.{returns, exits, failure}
use c_examples.Cli.Strto.{Str, strtoumax}
use c_examples.Cli.Decimal.{decimal}
use c_examples.Cli.Numbers.{parse_in_port_t}
use c_examples.Cli.Parsed.{parse_in_port_t-minus}
use c_examples.Cli.Getopt.{CommandLine}

-- "8080".
abbrev port_8080 : Str
port_8080 = 56 ∷ 48 ∷ 56 ∷ 48 ∷ []

decimal_8080 : decimal 8080 ≡ port_8080
unfolding decimal
decimal_8080 = refl

-- "", " +80" and "80x".
port_empty : parse_in_port_t [] ≡ returns 0
unfolding parse_in_port_t strtoumax
port_empty = refl

port_spaced : parse_in_port_t (32 ∷ 43 ∷ 56 ∷ 48 ∷ []) ≡ returns 80
unfolding parse_in_port_t strtoumax
port_spaced = refl

port_trailing : parse_in_port_t (56 ∷ 48 ∷ 120 ∷ []) ≡ exits failure
unfolding parse_in_port_t strtoumax
port_trailing = refl

parse_in_port_t-minus_example :
    parse_in_port_t (45 ∷ decimal (2 ^ 64 - 1)) ≡ returns (2 ^ 64 - (2 ^ 64 - 1))
parse_in_port_t-minus_example = parse_in_port_t-minus (2 ^ 64 - 1) (omega arith) (omega arith)

-- `prog 1 8080 m`, with a name of the program and one-letter operands.
abbrev line_1 : CommandLine
line_1 = record { argv = (112 ∷ []) ∷ port_8080 ∷ []; opts = []; optind = 1 }

abbrev line_2 : CommandLine
line_2 = record { argv = (112 ∷ []) ∷ (49 ∷ []) ∷ port_8080 ∷ []; opts = []; optind = 1 }

abbrev line_3 : CommandLine
line_3 = record {
  argv = (112 ∷ []) ∷ (49 ∷ []) ∷ port_8080 ∷ (109 ∷ []) ∷ [];
  opts = [];
  optind = 1;
}

abbrev line_0 : CommandLine
line_0 = record { argv = (112 ∷ []) ∷ []; opts = []; optind = 1 }
