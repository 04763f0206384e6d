-- ===== src/Local/Nets/Uncover.antt =====
-- What stands before a color is removed, and the color is found behind it.
use mathlib.Core.Path.{subst}
use k8s_jumperless.Base.{
  ℕ, zero, suc, ◌≤◌, List, [], ◌∷◌, ◌++◌, ◌≡◌, ◌≢◌, refl, sym, ap, ◌∙◌, arith, Bytes, codes, All,
}
use k8s_jumperless.Local.Nets.Colored.{
  Decoration, plain, starred, backspaces, decorate, IsDecoration,
}
use k8s_jumperless.Local.Nets.Sound.{IsOneOf, here, there}
use k8s_jumperless.Local.Nets.{backspace, trim_backspaces, named_colors, find_marker}
use k8s_jumperless.Strings.Affix.Laws.{trim_prefix-append}
use k8s_jumperless.Strings.Affix.{has_prefix, trim_prefix}
use k8s_jumperless.Strings.Space.Laws.{
  IsTrimmed, IsBlank, trim_space_pad, trim_space_fixed, no_last-append_blanks,
}
use k8s_jumperless.Strings.Space.{
  trim_space, ascii_space, two_byte_space, three_byte_space, space_width,
}

-- A word that begins with a small letter.
abbrev pub IsLower : Bytes → Type 0
IsLower [] = ⊥
IsLower (c ∷ s) = (b'a' ≤ c) × (c ≤ b'z')

pub named_colors-IsLower : All IsLower named_colors
named_colors-IsLower = omega arith

pub All-IsOneOf : {c : Bytes} {cs : List Bytes} → IsOneOf c cs → All IsLower cs → IsLower c
All-IsOneOf (here e) h = subst IsLower (sym e) h.0
All-IsOneOf (there o) h = All-IsOneOf o h.1

lower_first : (c : ℕ) (s : Bytes) → IsLower (c ∷ s) → space_width (c ∷ s) ≡ 0
unfolding space_width ascii_space two_byte_space three_byte_space
lower_first c [] h = ground arith
lower_first c (a ∷ []) h = ground arith
lower_first c (a ∷ b ∷ s) h = ground arith

pub find_marker_plain : (c : ℕ) (s : Bytes) → c ≢ b'-' → find_marker (c ∷ s) ≡ []
unfolding find_marker
find_marker_plain c [] ne = refl
find_marker_plain c (a ∷ []) ne = refl
find_marker_plain c (a ∷ b ∷ s) ne = ground arith

-- The text from the color on.
abbrev pub from_color : Bytes → Bytes → Bytes → Bytes
from_color color pad rest = color ++ (pad ++ rest)

module _ (color pad rest : Bytes) (lower : IsLower color) (np : pad ≢ []) (bp : All IsBlank pad)
    (t : IsTrimmed rest) (ne : rest ≢ []) where
  pub from_color-IsLower : IsLower (from_color color pad rest)
  from_color-IsLower = go color lower
    where
      go : (color : Bytes) → IsLower color → IsLower (from_color color pad rest)
      go [] h = absurd h
      go (c ∷ s) h = h

  pub from_color-IsTrimmed : IsTrimmed (from_color color pad rest)
  from_color-IsTrimmed = record {
    no_first = go (from_color color pad rest) from_color-IsLower;
    no_last = no_last-append_blanks color pad rest np bp ne t.no_last;
  }
    where
      go : (s : Bytes) → IsLower s → space_width s ≡ 0
      go [] h = absurd h
      go (c ∷ s) h = lower_first c s h

trim_backspaces-backspaces :
    (n c : ℕ) (s : Bytes) → c ≢ backspace → trim_backspaces (backspaces n (c ∷ s)) ≡ c ∷ s
unfolding trim_backspaces backspaces
trim_backspaces-backspaces zero c s ne = ground arith
trim_backspaces-backspaces (suc n) c s ne = trim_backspaces-backspaces n c s ne

backspaces-append : (n : ℕ) (s t : Bytes) → backspaces n (s ++ t) ≡ backspaces n s ++ t
unfolding backspaces
backspaces-append zero s t = refl
backspaces-append (suc n) s t = ap (◌∷◌ backspace) (backspaces-append n s t)

trim_prefix_star : (c : ℕ) (s : Bytes) → c ≢ b'*' → trim_prefix (c ∷ s) (codes "*") ≡ c ∷ s
unfolding trim_prefix has_prefix
trim_prefix_star c s ne = ground arith

backspaces_first : (n : ℕ) (s : Bytes) → space_width (backspaces n (b'*' ∷ s)) ≡ 0
unfolding backspaces space_width ascii_space two_byte_space three_byte_space
backspaces_first zero [] = refl
backspaces_first zero (a ∷ []) = ground arith
backspaces_first zero (a ∷ b ∷ s) = ground arith
backspaces_first (suc zero) [] = refl
backspaces_first (suc zero) (a ∷ s) = ground arith
backspaces_first (suc (suc zero)) s = refl
backspaces_first (suc (suc (suc n))) s = refl

module _ (s : Bytes) (t : IsTrimmed s) (lower : IsLower s) where
  lower-ne-nil : s ≢ []
  lower-ne-nil e = subst IsLower e lower

  -- What covers the color is removed.
  pub uncover :
      (d : Decoration)
      → IsDecoration d
      → trim_space (trim_prefix (trim_backspaces (decorate d s)) (codes "*")) ≡ s
  unfolding decorate backspaces
  uncover plain h = go s lower ∙ trim_space_fixed s t
    where
      go :
          (s : Bytes)
          → IsLower s
          → trim_space (trim_prefix (trim_backspaces s) (codes "*")) ≡ trim_space s
      go [] h = absurd h
      go (c ∷ s) h =
          rw (trim_backspaces-backspaces zero c s (omega arith), trim_prefix_star c s (omega arith))
  uncover (starred n pad) (np, bp) =
      rw
        (
          trim_backspaces-backspaces n b'*' (pad ++ s) (omega arith),
          trim_prefix-append (codes "*") (pad ++ s),
        )
        (trim_space_pad pad s bp t lower-ne-nil)

  pub decorate-IsTrimmed : (d : Decoration) → IsDecoration d → IsTrimmed (decorate d s)
  unfolding decorate
  decorate-IsTrimmed plain h = t
  decorate-IsTrimmed (starred n pad) (np, bp) = record {
    no_first = backspaces_first n (pad ++ s);
    no_last =
        rw (backspaces-append n (codes "*") (pad ++ s))
          (no_last-append_blanks (backspaces n (codes "*")) pad s np bp lower-ne-nil t.no_last);
  }

  pub decorate-ne-nil : (d : Decoration) → decorate d s ≢ []
  unfolding decorate backspaces
  decorate-ne-nil plain = lower-ne-nil
  decorate-ne-nil (starred zero pad) = λ e. cc
  decorate-ne-nil (starred (suc n) pad) = λ e. cc
