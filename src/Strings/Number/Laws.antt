-- ===== src/Strings/Number/Laws.antt =====
-- A formatted number is parsed back.
use k8s_jumperless.Base.{
  ℕ, zero, suc, Option, none, ◌+◌, ◌*◌, ◌/◌, ◌%◌, ◌^◌, ◌≤◌, ◌<◌, true, some, [], ◌∷◌, ◌≡◌, ◌≢◌,
  refl, ap, ◌-◌, arith, ◌==◌, leb, Bytes, Bool-cases, inl, inr, ℤ, pos, pos_part, All, ◌∙◌,
}
use k8s_jumperless.Strings.Number.{
  digits_value, digits_onto, format_nat, parse_int32, positive, negative, unsigned,
}

digits_value-cons :
    (acc d : ℕ) (rest : Bytes)
    → d < 10
    → digits_value acc ((b'0' + d) ∷ rest) ≡ digits_value (acc * 10 + d) rest
unfolding digits_value
digits_value-cons acc d rest h =
    let e : b'0' + d - b'0' ≡ d = omega arith in rw (is_digit.0, is_digit.1, e)
  where
    is_digit : (leb b'0' (b'0' + d) ≡ true) × (leb (b'0' + d) b'9' ≡ true)
    is_digit = (ground arith, ground arith)

digits_value-digits_onto :
    (fuel n : ℕ) (rest : Bytes)
    → n ≤ fuel
    → digits_value 0 (digits_onto fuel n rest) ≡ digits_value n rest
unfolding digits_onto
digits_value-digits_onto zero n rest h = ap (λ k. digits_value k rest) (omega arith)
digits_value-digits_onto (suc fuel) n rest h = elim (Bool-cases (n == 0)) [
  | inl e ↦ rw e (ap (λ k. digits_value k rest) (ground arith))
  | inr e ↦ rw e (
      digits_value-digits_onto fuel (n / 10) _ (ground arith)
      ∙ digits_value-cons (n / 10) (n % 10) rest (omega arith)
      ∙ ap (λ k. digits_value k rest) (omega arith))
]

abbrev pub IsDigit : ℕ → Type 0
IsDigit b = (b'0' ≤ b) × (b ≤ b'9')

digits_onto-IsDigit :
    (fuel n : ℕ) (rest : Bytes) → All IsDigit rest → All IsDigit (digits_onto fuel n rest)
unfolding digits_onto
digits_onto-IsDigit zero n rest h = h
digits_onto-IsDigit (suc fuel) n rest h = elim (Bool-cases (n == 0)) [
  | inl e ↦ rw e h
  | inr e ↦ rw e (digits_onto-IsDigit fuel (n / 10) _ ((omega arith, omega arith), h))
]

pub format_nat-IsDigit : (n : ℕ) → All IsDigit (format_nat n)
unfolding format_nat
format_nat-IsDigit n = elim (Bool-cases (n == 0)) [
  | inl e ↦ rw e ((omega arith, omega arith), tt)
  | inr e ↦ rw e (digits_onto-IsDigit n n [] tt)
]

digits_value-format_nat : (n : ℕ) → digits_value 0 (format_nat n) ≡ some n
unfolding format_nat digits_value
digits_value-format_nat n = elim (Bool-cases (n == 0)) [
  | inl e ↦ rw e (ap some (ground arith))
  | inr e ↦ rw e (digits_value-digits_onto n n [] (omega arith))
]

pub format_nat-ne-nil : (n : ℕ) → format_nat n ≢ []
unfolding format_nat digits_value
format_nat-ne-nil n h = ground (arith, digits_value-format_nat n)

parse_int32-digits :
    (s : Bytes) (n : ℕ)
    → s ≢ []
    → All IsDigit s
    → digits_value 0 s ≡ some n
    → n < 2 ^ 31
    → parse_int32 s ≡ some (pos n)
unfolding parse_int32
parse_int32-digits [] n ne h e k = absurd (ne refl)
parse_int32-digits (c ∷ s) n ne (d, h) e k = rw (e, parse_int32) (ground arith)

-- `ParseInt` reads what `FormatInt` writes, for a number that an `int32` can hold.
pub parse_int32-format_nat : (n : ℕ) → n < 2 ^ 31 → parse_int32 (format_nat n) ≡ some (pos n)
parse_int32-format_nat n h =
    parse_int32-digits (format_nat n) n (format_nat-ne-nil n) (format_nat-IsDigit n)
      (digits_value-format_nat n) h

positive_range : (o : Option ℕ) (i : ℤ) → positive o ≡ some i → pos_part i < 2 ^ 31
positive_range none i h = cc
positive_range (some n) i h = ground arith

negative_range : (o : Option ℕ) (i : ℤ) → negative o ≡ some i → pos_part i < 2 ^ 31
negative_range none i h = cc
negative_range (some zero) i h = ground arith
negative_range (some (suc n)) i h = ground arith

-- A parsed number is one that an `int32` can hold.
pub parse_int32_range : (s : Bytes) (i : ℤ) → parse_int32 s ≡ some i → pos_part i < 2 ^ 31
unfolding parse_int32
parse_int32_range [] i h = cc
parse_int32_range (c ∷ s) i h = elim (Bool-cases (c == b'-')) [
  | inl e ↦ negative_range (unsigned s) i (rw e at h)
  | inr e ↦ elim (Bool-cases (c == b'+')) [
    | inl f ↦ positive_range (unsigned s) i (rw (e, f) at h)
    | inr f ↦ positive_range (unsigned (c ∷ s)) i (rw (e, f) at h)
  ]
]
