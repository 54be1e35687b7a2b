-- ===== src/Cli/Decimal.antt =====
-- Numbers in decimal, and how `strtoumax` and `strtoimax` read them back.
use c_examples.Base.{
  ℕ, zero, suc, ◌+◌, ◌-◌, ◌*◌, ◌/◌, ◌%◌, ◌<◌, ◌≡◌, refl, ◌∙◌, ap, true, false, [], ◌∷◌, ltb, ◌==◌,
  if◌then◌else◌, arith, Bool-cases, ltb→lt, inl, inr,
}
use c_examples.Cli.Strto.{
  Str, ℤ, pos, negsuc, is_space, is_digit, skip_space, sign, starts_number, scan, unsigned,
  strtoumax, signed, strtoimax,
}

-- The digits of `n`, then `s`. The fuel is more than the number of digits.
abbrev digits_from : ℕ → ℕ → Str → Str
digits_from zero n s = s
digits_from (suc f) n s =
    let higher = digits_from f (n / 10) ((48 + n % 10) ∷ s) in
    if ltb n 10 then (48 + n) ∷ s else higher

unfoldable pub decimal : ℕ → Str
decimal n = digits_from (suc n) n []

abbrev pub decimal_ℤ : ℤ → Str
decimal_ℤ (pos n) = decimal n
decimal_ℤ (negsuc n) = 45 ∷ decimal (suc n)

digit-is_digit : (d : ℕ) → d < 10 → is_digit (48 + d) ≡ true
digit-is_digit d h = ground arith

digit-is_space : (d : ℕ) → is_space (48 + d) ≡ false
digit-is_space d = ground arith

digit-not_minus : (d : ℕ) → d < 10 → ((48 + d) == 45) ≡ false
digit-not_minus d h = ground arith

digit-not_plus : (d : ℕ) → d < 10 → ((48 + d) == 43) ≡ false
digit-not_plus d h = ground arith

scan-digit : (n d : ℕ) (s : Str) → d < 10 → scan n ((48 + d) ∷ s) ≡ scan (n * 10 + d) s
scan-digit n d s h = rw (digit-is_digit d h) (ap (λ k. scan (n * 10 + k) s) value)
  where
    value : (48 + d) - 48 ≡ d
    value = omega arith

scan-digits_from : (f n : ℕ) (s : Str) → n < f → scan 0 (digits_from f n s) ≡ scan n s
scan-digits_from zero n s h = absurd (omega arith)
scan-digits_from (suc f) n s h = elim (Bool-cases (ltb n 10)) [
  | inl small ↦ rw small (scan-digit 0 n s (ltb→lt n 10 small) ∙ ap (λ k. scan k s) (omega arith))
  | inr large ↦ rw large (
      scan-digits_from f (n / 10) ((48 + n % 10) ∷ s) (ground arith)
      ∙ scan-digit (n / 10) (n % 10) s (omega arith)
      ∙ ap (λ k. scan k s) (omega arith))
]

-- A numeral begins with a digit.
abbrev Numeral : Str → Type 0
Numeral s = (d : ℕ) × (t : Str) × (d < 10) × (s ≡ (48 + d) ∷ t)

digits_from-Numeral : (f n : ℕ) (s : Str) → Numeral s → Numeral (digits_from f n s)
digits_from-Numeral zero n s h = h
digits_from-Numeral (suc f) n s h = elim (Bool-cases (ltb n 10)) [
  | inl small ↦ (n, s, ltb→lt n 10 small, rw small refl)
  | inr large ↦
      rw large (digits_from-Numeral f (n / 10) ((48 + n % 10) ∷ s) (n % 10, s, omega arith, refl))
]

decimal-Numeral : (n : ℕ) → Numeral (decimal n)
unfolding decimal
decimal-Numeral n = elim (Bool-cases (ltb n 10)) [
  | inl small ↦ (n, [], ltb→lt n 10 small, rw small refl)
  | inr large ↦
      rw large (digits_from-Numeral n (n / 10) ((48 + n % 10) ∷ []) (n % 10, [], omega arith, refl))
]

scan-decimal : (n : ℕ) → scan 0 (decimal n) ≡ (n, [])
unfolding decimal
scan-decimal n = scan-digits_from (suc n) n [] (omega arith)

-- Such a string has no space or sign to skip.
Numeral-starts : (s : Str) → Numeral s → starts_number s ≡ true
Numeral-starts s (d, t, h, e) = rw (e, digit-is_digit d h) refl

Numeral-skip_space : (s : Str) → Numeral s → skip_space s ≡ s
Numeral-skip_space s (d, t, h, e) = rw (e, digit-is_space d) refl

Numeral-sign : (s : Str) → Numeral s → sign s ≡ (false, s)
Numeral-sign s (d, t, h, e) = rw (e, digit-not_minus d h, digit-not_plus d h) refl

pub strtoumax-decimal : (n : ℕ) → strtoumax (decimal n) ≡ unsigned false (n, [])
unfolding strtoumax
strtoumax-decimal n =
    rw
      (
        Numeral-skip_space (decimal n) (decimal-Numeral n),
        Numeral-sign (decimal n) (decimal-Numeral n),
        Numeral-starts (decimal n) (decimal-Numeral n),
        scan-decimal n,
      )
      refl

pub strtoumax-minus : (n : ℕ) → strtoumax (45 ∷ decimal n) ≡ unsigned true (n, [])
unfolding strtoumax
strtoumax-minus n = rw (Numeral-starts (decimal n) (decimal-Numeral n), scan-decimal n) refl

pub strtoimax-decimal : (n : ℕ) → strtoimax (decimal n) ≡ signed false (n, [])
unfolding strtoimax
strtoimax-decimal n =
    rw
      (
        Numeral-skip_space (decimal n) (decimal-Numeral n),
        Numeral-sign (decimal n) (decimal-Numeral n),
        Numeral-starts (decimal n) (decimal-Numeral n),
        scan-decimal n,
      )
      refl

pub strtoimax-minus : (n : ℕ) → strtoimax (45 ∷ decimal n) ≡ signed true (n, [])
unfolding strtoimax
strtoimax-minus n = rw (Numeral-starts (decimal n) (decimal-Numeral n), scan-decimal n) refl
