-- ===== src/Cli/Strto.antt =====
-- `strtoumax` and `strtoimax` in base ten, as ISO C describes them, on a C string without its NUL.
-- `intmax_t` has 64 bits. Where there is nothing to convert, `errno` stays 0, as it does in glibc.
use c_examples.Base.{
  ℕ, zero, suc, ◌+◌, ◌-◌, ◌*◌, ◌%◌, ◌^◌, Bool, true, false, ◌&&◌, ◌||◌, List, [], ◌∷◌, leb, ltb,
  ◌==◌, if◌then◌else◌,
}

abbrev pub Str : Type 0
Str = List ℕ

pub data ℤ : Type 0 where
  pos : ℕ → ℤ
  -- negsuc n is -(n + 1).
  negsuc : ℕ → ℤ

-- `-n`.
abbrev pub minus : ℕ → ℤ
minus zero = pos 0
minus (suc n) = negsuc n

abbrev pub leb_ℤ : ℤ → ℤ → Bool
leb_ℤ (pos a) (pos b) = leb a b
leb_ℤ (pos a) (negsuc b) = false
leb_ℤ (negsuc a) (pos b) = true
leb_ℤ (negsuc a) (negsuc b) = leb b a

abbrev pub is_space : ℕ → Bool
is_space c = (c == 32) || (leb 9 c && leb c 13)

abbrev pub is_digit : ℕ → Bool
is_digit c = leb 48 c && leb c 57

abbrev pub skip_space : Str → Str
skip_space [] = []
skip_space (c ∷ s) = let rest = skip_space s in if is_space c then rest else c ∷ s

-- Whether there is a minus sign, and what stands behind an optional sign.
abbrev pub sign : Str → Bool × Str
sign [] = (false, [])
sign (c ∷ s) = if c == 45 then (true, s) else (if c == 43 then (false, s) else (false, c ∷ s))

abbrev pub starts_number : Str → Bool
starts_number [] = false
starts_number (c ∷ s) = is_digit c

-- The digits that `s` begins with, behind those that gave `n`; and the rest.
abbrev pub scan : ℕ → Str → ℕ × Str
scan n [] = (n, [])
scan n (c ∷ s) = let more = scan (n * 10 + (c - 48)) s in if is_digit c then more else (n, c ∷ s)

-- What a call returns, sets `errno` to (ERANGE or nothing), and stores in `*endptr`.
pub record Conversion {ℓ} (A : Type ℓ) : Type ℓ where
  pub value : A
  pub erange : Bool
  pub endptr : Str

abbrev pub unsigned : Bool → ℕ × Str → Conversion ℕ
unsigned negative (n, rest) =
    if leb (2 ^ 64) n then record { value = 2 ^ 64 - 1; erange = true; endptr = rest } else record {
      value = if negative then (2 ^ 64 - n) % 2 ^ 64 else n;
      erange = false;
      endptr = rest;
    }

unfoldable pub strtoumax : Str → Conversion ℕ
strtoumax s =
    let (negative, digits) = sign (skip_space s) in
    if starts_number digits
    then unsigned negative (scan 0 digits)
    else record { value = 0; erange = false; endptr = s }

abbrev pub signed : Bool → ℕ × Str → Conversion ℤ
signed true (n, rest) =
    if ltb (2 ^ 63) n
    then record { value = minus (2 ^ 63); erange = true; endptr = rest }
    else record { value = minus n; erange = false; endptr = rest }
signed false (n, rest) =
    if leb (2 ^ 63) n
    then record { value = pos (2 ^ 63 - 1); erange = true; endptr = rest }
    else record { value = pos n; erange = false; endptr = rest }

unfoldable pub strtoimax : Str → Conversion ℤ
strtoimax s =
    let (negative, digits) = sign (skip_space s) in
    if starts_number digits
    then signed negative (scan 0 digits)
    else record { value = pos 0; erange = false; endptr = s }
