-- ===== src/Strings/Split.antt =====
-- `strings.Cut`, `Contains`, `Replace` with n = 1, `Split`, `SplitN` and `Join`.
-- No separator of the program is empty.
pub mod Laws
use k8s_jumperless.Base.{
  ℕ, zero, suc, ◌-◌, Bool, true, false, List, [], ◌∷◌, ◌++◌, if◌then◌else◌, Bytes, length, drop,
}
use k8s_jumperless.Strings.Affix.{has_prefix}

-- What stands before the first `sep`, what stands after it, and whether there is one.
unfoldable pub cut : Bytes → Bytes → Bytes × Bytes × Bool
unfolding has_prefix
cut [] sep = ([], [], false)
cut (c ∷ s) sep =
    let (before, after, found) = cut s sep in
    if has_prefix (c ∷ s) sep
    then ([], drop (length sep) (c ∷ s), true)
    else (c ∷ before, after, found)

unfoldable pub contains : Bytes → Bytes → Bool
unfolding cut
contains s sep = (cut s sep).2

-- `strings.Replace(s, old, new, 1)`
unfoldable pub replace_one : Bytes → Bytes → Bytes → Bytes
unfolding cut
replace_one s old new =
    let (before, after, found) = cut s old in if found then before ++ (new ++ after) else s

-- Puts a byte in front of the first piece.
abbrev pub onto_first : ℕ → List Bytes → List Bytes
onto_first c [] = (c ∷ []) ∷ []
onto_first c (p ∷ ps) = (c ∷ p) ∷ ps

-- `skip` bytes of a separator are still to be passed over.
unfoldable pub split_from : Bytes → ℕ → Bytes → List Bytes
unfolding has_prefix
split_from sep skip [] = [] ∷ []
split_from sep (suc skip) (c ∷ s) = split_from sep skip s
split_from sep zero (c ∷ s) =
    let hit = has_prefix (c ∷ s) sep in
    let rest = split_from sep (if hit then length sep - 1 else 0) s in
    if hit then [] ∷ rest else onto_first c rest

unfoldable pub split : Bytes → Bytes → List Bytes
unfolding split_from
split s sep = split_from sep 0 s

-- `strings.SplitN(s, sep, n)` for 0 < n.
unfoldable pub split_n : Bytes → Bytes → ℕ → List Bytes
unfolding cut
split_n s sep zero = []
split_n s sep (suc zero) = s ∷ []
split_n s sep (suc (suc n)) =
    let (before, after, found) = cut s sep in
    if found then before ∷ split_n after sep (suc n) else s ∷ []

unfoldable pub join : List Bytes → Bytes → Bytes
join [] sep = []
join (p ∷ []) sep = p
join (p ∷ q ∷ ps) sep = p ++ (sep ++ join (q ∷ ps) sep)
