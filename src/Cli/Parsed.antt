-- ===== src/Cli/Parsed.antt =====
-- The functions that parse an argument, on decimals.
use c_examples.Base.{
  ℕ, suc, ◌⊎◌, ◌-◌, ◌*◌, ◌%◌, ◌^◌, ◌≤◌, ◌<◌, ◌≡◌, refl, ap, true, false, not, leb, ltb,
  if◌then◌else◌, [], ◌∷◌, arith, Bool-cases, leb→le, inl, inr,
}
use native.Mathlib.Nat.{mod-eq_of_lt}
use c_examples.Base.Run.{failure, returns, exits, ◌>>=◌}
use c_examples.Cli.Strto.{ℤ, pos, negsuc, leb_ℤ, minus, unsigned, signed}
use c_examples.Cli.Decimal.{
  decimal, decimal_ℤ, strtoumax-decimal, strtoumax-minus, strtoimax-decimal, strtoimax-minus,
}
use c_examples.Cli.Numbers.{
  checked, parse_in_port_t, parse_unsigned_int, parse_size_t, get_uid_t_max, parse_uid_t, between,
  parse_positive_int, parse_int, parse_long, parse_off_t,
}

unsigned-checked :
    (max n : ℕ)
    → max < 2 ^ 64
    → checked (λ v. not (ltb max v)) (unsigned false (n, []))
      ≡ (if leb n max then returns n else exits failure)
unsigned-checked max n h = ground arith

cast :
    (max w n : ℕ)
    → max < w
    → ((if leb n max then returns n else exits failure) >>= λ v. returns (v % w))
      ≡ (if leb n max then returns n else exits failure)
cast max w n h = elim (Bool-cases (leb n max)) [
  | inl small ↦ rw small (ap returns (mod-eq_of_lt (omega (arith, leb→le n max small))))
  | inr large ↦ rw large refl
]

-- `parse_in_port_t`, on the decimal of any number, gives it back when it is at most 65535, and
-- else exits.
pub parse_in_port_t-decimal :
    (n : ℕ) → parse_in_port_t (decimal n) ≡ (if leb n 65535 then returns n else exits failure)
unfolding parse_in_port_t
parse_in_port_t-decimal n =
    rw (strtoumax-decimal n, unsigned-checked 65535 n (omega arith))
      (cast 65535 65536 n (omega arith))

-- `parse_unsigned_int`, on the decimal of any number, gives it back when it is less than 2^32,
-- and else exits.
pub parse_unsigned_int-decimal :
    (n : ℕ)
    → parse_unsigned_int (decimal n) ≡ (if leb n 4294967295 then returns n else exits failure)
unfolding parse_unsigned_int
parse_unsigned_int-decimal n =
    rw (strtoumax-decimal n, unsigned-checked 4294967295 n (omega arith))
      (cast 4294967295 4294967296 n (omega arith))

-- `parse_size_t`, on the decimal of any number, gives it back when it is less than 2^64, and else
-- exits.
pub parse_size_t-decimal :
    (n : ℕ) → parse_size_t (decimal n) ≡ (if ltb n (2 ^ 64) then returns n else exits failure)
unfolding parse_size_t
parse_size_t-decimal n = rw (strtoumax-decimal n) (ground arith)

positive-checked :
    (lo hi : ℤ) (n : ℕ)
    → leb_ℤ hi (pos (2 ^ 63 - 1)) ≡ true
    → checked (between lo hi) (signed false (n, []))
      ≡ (if between lo hi (pos n) then returns (pos n) else exits failure)
positive-checked (pos a) (pos b) n h = ground arith
positive-checked (negsuc a) (pos b) n h = ground arith
positive-checked (pos a) (negsuc b) n h = ground arith
positive-checked (negsuc a) (negsuc b) n h = ground arith

negative-checked :
    (lo hi : ℤ) (n : ℕ)
    → leb_ℤ (minus (2 ^ 63)) lo ≡ true
    → checked (between lo hi) (signed true (suc n, []))
      ≡ (if between lo hi (negsuc n) then returns (negsuc n) else exits failure)
negative-checked (pos a) (pos b) n h = ground arith
negative-checked (negsuc a) (pos b) n h = ground arith
negative-checked (pos a) (negsuc b) n h = ground arith
negative-checked (negsuc a) (negsuc b) n h = ground arith

-- `parse_off_t`, on the decimal of any integer, gives it back when it lies between the two
-- bounds, and else exits, where the bounds are of 64 bits.
pub parse_off_t-decimal_ℤ :
    (min max : ℤ)
    → leb_ℤ (minus (2 ^ 63)) min ≡ true
    → leb_ℤ max (pos (2 ^ 63 - 1)) ≡ true
    → (z : ℤ)
    → parse_off_t min max (decimal_ℤ z) ≡ (if between min max z then returns z else exits failure)
unfolding parse_off_t
parse_off_t-decimal_ℤ min max l h (pos n) = rw (strtoimax-decimal n) (positive-checked min max n h)
parse_off_t-decimal_ℤ min max l h (negsuc n) =
    rw (strtoimax-minus (suc n)) (negative-checked min max n l)

pub parse_int-decimal_ℤ :
    (z : ℤ)
    → parse_int (decimal_ℤ z)
      ≡ (if between (minus (2 ^ 31)) (pos (2 ^ 31 - 1)) z then returns z else exits failure)
unfolding parse_int parse_off_t
parse_int-decimal_ℤ = parse_off_t-decimal_ℤ (minus (2 ^ 31)) (pos (2 ^ 31 - 1)) refl refl

pub parse_long-decimal_ℤ :
    (z : ℤ)
    → parse_long (decimal_ℤ z)
      ≡ (if between (minus (2 ^ 63)) (pos (2 ^ 63 - 1)) z then returns z else exits failure)
unfolding parse_long parse_off_t
parse_long-decimal_ℤ = parse_off_t-decimal_ℤ (minus (2 ^ 63)) (pos (2 ^ 63 - 1)) refl refl

pub parse_positive_int-decimal_ℤ :
    (z : ℤ)
    → parse_positive_int (decimal_ℤ z)
      ≡ (if between (pos 0) (pos (2 ^ 31 - 1)) z then returns z else exits failure)
unfolding parse_positive_int parse_off_t
parse_positive_int-decimal_ℤ = parse_off_t-decimal_ℤ (pos 0) (pos (2 ^ 31 - 1)) refl refl

-- The C types of the sizes that `get_uid_t_max` knows.
abbrev pub Size : ℕ → Type 0
Size size = (size ≡ 1) ⊎ (size ≡ 2) ⊎ (size ≡ 4) ⊎ (size ≡ 8)

get_uid_t_max-Size : (size : ℕ) → Size size → get_uid_t_max size ≡ returns (2 ^ (8 * size) - 1)
unfolding get_uid_t_max
get_uid_t_max-Size size (inl e) = rw e refl
get_uid_t_max-Size size (inr (inl e)) = rw e refl
get_uid_t_max-Size size (inr (inr (inl e))) = rw e refl
get_uid_t_max-Size size (inr (inr (inr e))) = rw e refl

width : (size : ℕ) → Size size → (0 < 2 ^ (8 * size)) × (2 ^ (8 * size) ≤ 2 ^ 64)
width size (inl e) = rw e (omega arith, omega arith)
width size (inr (inl e)) = rw e (omega arith, omega arith)
width size (inr (inr (inl e))) = rw e (omega arith, omega arith)
width size (inr (inr (inr e))) = rw e (omega arith, omega arith)

-- `parse_uid_t`, for a `uid_t` of 1, 2, 4 or 8 bytes, gives a number back from its decimal when
-- it fits, and else exits.
pub parse_uid_t-decimal :
    (size : ℕ)
    → Size size
    → (n : ℕ)
    → parse_uid_t size (decimal n)
      ≡ (if leb n (2 ^ (8 * size) - 1) then returns n else exits failure)
unfolding parse_uid_t
parse_uid_t-decimal size h n =
    let (positive, small) = width size h in
    rw
      (
        get_uid_t_max-Size size h,
        strtoumax-decimal n,
        unsigned-checked (2 ^ (8 * size) - 1) n (omega arith),
      )
      (cast (2 ^ (8 * size) - 1) (2 ^ (8 * size)) n (omega arith))

negative-port :
    (n : ℕ)
    → 2 ^ 64 - 65535 ≤ n
    → n < 2 ^ 64
    → checked (λ v. not (ltb 65535 v)) (unsigned true (n, [])) ≡ returns (2 ^ 64 - n)
negative-port n l h = ground arith

-- The tests do not see a minus sign: each port but 0 can also be written as a negative number,
-- since `strtoumax` takes -n modulo 2^64.
pub parse_in_port_t-minus :
    (n : ℕ)
    → 2 ^ 64 - 65535 ≤ n
    → n < 2 ^ 64
    → parse_in_port_t (45 ∷ decimal n) ≡ returns (2 ^ 64 - n)
unfolding parse_in_port_t
parse_in_port_t-minus n l h = rw (strtoumax-minus n, negative-port n l h) (ap returns (omega arith))
