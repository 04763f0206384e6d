-- ===== src/Strings/Affix/Laws.antt =====
-- Prefixes and suffixes that are there by construction.
use mathlib.Core.List.{reverse-append, reverse-reverse}
use k8s_jumperless.Base.{
  true, [], ◌∷◌, ◌++◌, reverse, ◌≡◌, refl, arith, Bytes, drop-append, length-reverse,
}
use k8s_jumperless.Strings.Affix.{has_prefix, has_suffix, trim_prefix, trim_suffix}

pub has_prefix-append : (p s : Bytes) → has_prefix (p ++ s) p ≡ true
unfolding has_prefix
has_prefix-append [] [] = refl
has_prefix-append [] (c ∷ s) = refl
has_prefix-append (b ∷ p) s = ground (arith, has_prefix-append p s)

pub trim_prefix-append : (p s : Bytes) → trim_prefix (p ++ s) p ≡ s
unfolding trim_prefix
trim_prefix-append p s = rw (has_prefix-append p s, drop-append p s)

pub has_suffix-append : (s p : Bytes) → has_suffix (s ++ p) p ≡ true
unfolding has_suffix
has_suffix-append s p = rw reverse-append (has_prefix-append (reverse p) (reverse s))

pub trim_suffix-append : (s p : Bytes) → trim_suffix (s ++ p) p ≡ s
unfolding trim_suffix
trim_suffix-append s p = rw (has_suffix-append s p) (
    rw (reverse-append, ← length-reverse p, drop-append (reverse p) (reverse s))
      (reverse-reverse s))
