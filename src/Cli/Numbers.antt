-- ===== src/Cli/Numbers.antt =====
-- The functions that turn an argument into a number and check its range. The programs have copies of
-- them; the first copy is named here. `usage` and `perror` with `exit` are `exits failure`.
use c_examples.Base.{
  ℕ, ◌-◌, ◌*◌, ◌%◌, ◌==◌, ◌^◌, Bool, true, false, ◌||◌, not, ltb, if◌then◌else◌, [], ◌∷◌,
}
use c_examples.Base.Run.{failure, Run, returns, exits, ◌>>=◌, ◌>>◌, require}
use c_examples.Cli.Strto.{Str, ℤ, pos, leb_ℤ, minus, Conversion, strtoumax, strtoimax}

-- `*endptr == '\0'`.
abbrev pub at_end : Str → Bool
at_end [] = true
at_end (c ∷ s) = false

-- What the functions have in common: `errno`, `*endptr`, then a test of the value.
abbrev pub checked {ℓ} : {A : Type ℓ} → (A → Bool) → Conversion A → Run A
checked in_range c =
    require (not c.erange)
    >> require (at_end c.endptr)
    >> require (in_range c.value)
    >> returns c.value

unfoldable pub parse_in_port_t : Str → Run ℕ
parse_in_port_t s =
    checked (λ v. not (ltb (2 ^ 16 - 1) v)) (strtoumax s) >>= λ v. returns (v % 2 ^ 16)

unfoldable pub parse_unsigned_int : Str → Run ℕ
parse_unsigned_int s =
    checked (λ v. not (ltb (2 ^ 32 - 1) v)) (strtoumax s) >>= λ v. returns (v % 2 ^ 32)

unfoldable pub parse_size_t : Str → Run ℕ
parse_size_t s = checked (λ v. not (ltb (2 ^ 64 - 1) v)) (strtoumax s)

-- For a `uid_t` of `size` bytes. `char`, `short`, `int`, `long` and `long long` have 1, 2, 4, 8 and 8.
unfoldable pub get_uid_t_max : ℕ → Run ℕ
get_uid_t_max size =
    if size == 1
    then returns (2 ^ 8 - 1)
    else (if size == 2
        then returns (2 ^ 16 - 1)
        else (if size == 4
            then returns (2 ^ 32 - 1)
            else (if size == 8 then returns (2 ^ 64 - 1) else exits failure)))

unfoldable pub parse_uid_t : ℕ → Str → Run ℕ
parse_uid_t size s = get_uid_t_max size >>= λ max.
    checked (λ v. not (ltb max v)) (strtoumax s) >>= λ v. returns (v % 2 ^ (8 * size))

-- `parsed_value < lo || parsed_value > hi` is an error.
abbrev pub between : ℤ → ℤ → ℤ → Bool
between lo hi v = not (not (leb_ℤ lo v) || not (leb_ℤ v hi))

unfoldable pub parse_positive_int : Str → Run ℤ
parse_positive_int s = checked (between (pos 0) (pos (2 ^ 31 - 1))) (strtoimax s)

unfoldable pub parse_int : Str → Run ℤ
parse_int s = checked (between (minus (2 ^ 31)) (pos (2 ^ 31 - 1))) (strtoimax s)

unfoldable pub parse_long : Str → Run ℤ
parse_long s = checked (between (minus (2 ^ 63)) (pos (2 ^ 63 - 1))) (strtoimax s)

unfoldable pub get_off_t_min : ℕ → Run ℤ
get_off_t_min size =
    if size == 1
    then returns (minus (2 ^ 7))
    else (if size == 2
        then returns (minus (2 ^ 15))
        else (if size == 4
            then returns (minus (2 ^ 31))
            else (if size == 8 then returns (minus (2 ^ 63)) else exits failure)))

unfoldable pub get_off_t_max : ℕ → Run ℤ
get_off_t_max size =
    if size == 1
    then returns (pos (2 ^ 7 - 1))
    else (if size == 2
        then returns (pos (2 ^ 15 - 1))
        else (if size == 4
            then returns (pos (2 ^ 31 - 1))
            else (if size == 8 then returns (pos (2 ^ 63 - 1)) else exits failure)))

unfoldable pub parse_off_t : ℤ → ℤ → Str → Run ℤ
parse_off_t min max s = checked (between min max) (strtoimax s)
