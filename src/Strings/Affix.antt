-- ===== src/Strings/Affix.antt =====
-- `strings.HasPrefix`, `HasSuffix`, `TrimPrefix` and `TrimSuffix`.
pub mod Laws
use k8s_jumperless.Base.{
  Bool, true, false, ◌&&◌, [], ◌∷◌, reverse, ◌==◌, if◌then◌else◌, Bytes, length, drop,
}

-- `has_prefix s p`: does `s` begin with `p`?
unfoldable pub has_prefix : Bytes → Bytes → Bool
has_prefix s [] = true
has_prefix [] (p ∷ ps) = false
has_prefix (c ∷ s) (p ∷ ps) = c == p && has_prefix s ps

unfoldable pub has_suffix : Bytes → Bytes → Bool
unfolding has_prefix
has_suffix s p = has_prefix (reverse s) (reverse p)

unfoldable pub trim_prefix : Bytes → Bytes → Bytes
unfolding has_prefix
trim_prefix s p = if has_prefix s p then drop (length p) s else s

unfoldable pub trim_suffix : Bytes → Bytes → Bytes
unfolding has_suffix
trim_suffix s p = if has_suffix s p then reverse (drop (length p) (reverse s)) else s
