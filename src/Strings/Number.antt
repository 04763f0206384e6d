-- ===== src/Strings/Number.antt =====
-- `strconv.ParseInt(s, 10, 32)`: `none` is a `*NumError`, of syntax or of range.
-- `strconv.FormatInt(n, 10)` and `%d`.
pub mod Laws
use k8s_jumperless.Base.{
  ℕ, zero, suc, ◌+◌, ◌*◌, ◌-◌, ◌/◌, ◌%◌, ◌^◌, ◌&&◌, Option, none, some, [], ◌∷◌, ◌==◌, leb, ltb,
  if◌then◌else◌, Bytes, ℤ, pos, negsuc,
}

unfoldable pub digits_value : ℕ → Bytes → Option ℕ
digits_value acc [] = some acc
digits_value acc (c ∷ s) =
    let rest = digits_value (acc * 10 + (c - b'0')) s in
    if leb b'0' c && leb c b'9' then rest else none

abbrev pub unsigned : Bytes → Option ℕ
unsigned [] = none
unsigned (c ∷ s) = digits_value 0 (c ∷ s)

abbrev pub positive : Option ℕ → Option ℤ
positive none = none
positive (some n) = if ltb n (2 ^ 31) then some (pos n) else none

abbrev pub negative : Option ℕ → Option ℤ
negative none = none
negative (some zero) = some (pos 0)
negative (some (suc n)) = if ltb n (2 ^ 31) then some (negsuc n) else none

unfoldable pub parse_int32 : Bytes → Option ℤ
unfolding digits_value
parse_int32 [] = none
parse_int32 (c ∷ s) =
    if c == b'-'
    then negative (unsigned s)
    else if c == b'+'
    then positive (unsigned s)
    else positive (unsigned (c ∷ s))

-- The digits of `n`, put in front of `rest`; 0 has none here.
unfoldable pub digits_onto : ℕ → ℕ → Bytes → Bytes
digits_onto zero n rest = rest
digits_onto (suc fuel) n rest =
    let more = digits_onto fuel (n / 10) ((b'0' + n % 10) ∷ rest) in if n == 0 then rest else more

unfoldable pub format_nat : ℕ → Bytes
unfolding digits_onto
format_nat n = if n == 0 then b'0' ∷ [] else digits_onto n n []

unfoldable pub format_int : ℤ → Bytes
unfolding format_nat
format_int (pos n) = format_nat n
format_int (negsuc n) = b'-' ∷ format_nat (suc n)
