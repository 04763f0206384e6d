-- ===== src/Strings/Space.antt =====
-- `strings.TrimSpace` over the bytes of a string: white space is `unicode.IsSpace`, in UTF-8.
pub mod Laws
use k8s_jumperless.Base.{
  ℕ, zero, suc, Bool, ◌&&◌, ◌||◌, List, [], ◌∷◌, reverse, ◌==◌, leb, if◌then◌else◌, Bytes,
}

-- `\t`, `\n`, `\v`, `\f`, `\r` and the blank.
unfoldable pub ascii_space : ℕ → Bool
ascii_space b = (leb 9 b && leb b 13) || b == 32

-- U+0085 and U+00A0.
unfoldable pub two_byte_space : ℕ → ℕ → Bool
two_byte_space a b = a == 0xC2 && (b == 0x85 || b == 0xA0)

-- U+1680, U+2000 to U+200A, U+2028, U+2029, U+202F, U+205F and U+3000.
unfoldable pub three_byte_space : ℕ → ℕ → ℕ → Bool
three_byte_space a b c =
    (a == 0xE1 && b == 0x9A && c == 0x80)
    || (a == 0xE2 && b == 0x80 && leb 0x80 c && leb c 0x8A)
    || (a == 0xE2 && b == 0x80 && (c == 0xA8 || c == 0xA9 || c == 0xAF))
    || (a == 0xE2 && b == 0x81 && c == 0x9F)
    || (a == 0xE3 && b == 0x80 && c == 0x80)

-- The number of bytes of the white space that a string begins with, 0 if it begins with none.
unfoldable pub space_width : Bytes → ℕ
space_width [] = 0
space_width (a ∷ []) = if ascii_space a then 1 else 0
space_width (a ∷ b ∷ []) = if ascii_space a then 1 else if two_byte_space a b then 2 else 0
space_width (a ∷ b ∷ c ∷ _) =
    if ascii_space a
    then 1
    else if two_byte_space a b
    then 2
    else if three_byte_space a b c
    then 3
    else 0

-- The same at the end of a string, which is given reversed.
unfoldable pub last_space_width : Bytes → ℕ
last_space_width [] = 0
last_space_width (a ∷ []) = if ascii_space a then 1 else 0
last_space_width (b ∷ a ∷ []) = if ascii_space b then 1 else if two_byte_space a b then 2 else 0
last_space_width (c ∷ b ∷ a ∷ _) =
    if ascii_space c
    then 1
    else if two_byte_space b c
    then 2
    else if three_byte_space a b c
    then 3
    else 0

-- Drops the given number of bytes, and then white space for as long as there is any.
unfoldable pub skip_spaces : (Bytes → ℕ) → ℕ → Bytes → Bytes
skip_spaces width n [] = []
skip_spaces width (suc n) (b ∷ s) = skip_spaces width n s
skip_spaces width zero (b ∷ s) = elim (width (b ∷ s)) [
  | zero ↦ b ∷ s
  | suc n ↦ skip_spaces width n s
]

unfoldable pub trim_left : Bytes → Bytes
unfolding skip_spaces space_width ascii_space two_byte_space three_byte_space
trim_left = skip_spaces space_width 0

unfoldable pub trim_right : Bytes → Bytes
unfolding skip_spaces last_space_width ascii_space two_byte_space three_byte_space
trim_right s = reverse (skip_spaces last_space_width 0 (reverse s))

-- `strings.TrimSpace`
unfoldable pub trim_space : Bytes → Bytes
unfolding trim_left trim_right
trim_space s = trim_right (trim_left s)
