-- ===== src/Strings/Split/Laws.antt =====
-- Cutting and splitting at a separator undo putting it in.
use native.Mathlib.Decide.{ℕ_discrete}
use k8s_jumperless.Base.{
  ℕ, true, false, List, [], ◌∷◌, ◌++◌, ◌≡◌, ◌≢◌, refl, ap, ◌∙◌, arith, Bytes, All, drop-append,
}
use k8s_jumperless.Strings.Affix.Laws.{has_prefix-append}
use k8s_jumperless.Strings.Affix.{has_prefix}
use k8s_jumperless.Strings.Split.{cut, split_n, split, split_from, join, onto_first}

-- No byte of `s` is `c`.
abbrev pub Lacks : ℕ → Bytes → Type 0
Lacks c = All (λ b. b ≢ c)

has_prefix_ne : (b c : ℕ) (s p : Bytes) → b ≢ c → has_prefix (b ∷ s) (c ∷ p) ≡ false
unfolding has_prefix
has_prefix_ne b c s p h = ground arith

-- `Cut` finds the separator that follows bytes other than its first.
pub cut-append :
    (s : Bytes) (c : ℕ) (p rest : Bytes)
    → Lacks c s
    → cut (s ++ (c ∷ (p ++ rest))) (c ∷ p) ≡ (s, rest, true)
unfolding cut
cut-append [] c p rest h = rw (has_prefix-append (c ∷ p) rest, drop-append p rest)
cut-append (b ∷ s) c p rest h = rw (has_prefix_ne b c _ p h.0, cut-append s c p rest h.1)

pub cut_missing : (s : Bytes) (c : ℕ) (p : Bytes) → Lacks c s → cut s (c ∷ p) ≡ (s, [], false)
unfolding cut
cut_missing [] c p h = refl
cut_missing (b ∷ s) c p h = rw (has_prefix_ne b c s p h.0, cut_missing s c p h.1)

split_from_missing : (s : Bytes) (c : ℕ) → Lacks c s → split_from (c ∷ []) 0 s ≡ s ∷ []
unfolding split_from
split_from_missing [] c h = refl
split_from_missing (b ∷ s) c h = rw (has_prefix_ne b c s [] h.0, split_from_missing s c h.1)

split_from-append :
    (s : Bytes) (c : ℕ) (rest : Bytes)
    → Lacks c s
    → split_from (c ∷ []) 0 (s ++ c ∷ rest) ≡ s ∷ split_from (c ∷ []) 0 rest
unfolding split_from
split_from-append [] c rest h = rw (has_prefix-append (c ∷ []) rest)
split_from-append (b ∷ s) c rest h = rw (has_prefix_ne b c _ [] h.0, split_from-append s c rest h.1)

-- `Split` undoes `Join`, for a separator of one byte that no piece holds.
pub split-join :
    (p : Bytes) (ps : List Bytes) (c : ℕ)
    → All (Lacks c) (p ∷ ps)
    → split (join (p ∷ ps) (c ∷ [])) (c ∷ []) ≡ p ∷ ps
unfolding split join
split-join p [] c h = split_from_missing p c h.0
split-join p (q ∷ ps) c h =
    split_from-append p c (join (q ∷ ps) (c ∷ [])) h.0 ∙ ap (◌∷◌ p) (split-join q ps c h.1)

onto_first-Lacks :
    (b c : ℕ) (ps : List Bytes) → b ≢ c → All (Lacks c) ps → All (Lacks c) (onto_first b ps)
onto_first-Lacks b c [] h k = ((h, tt), tt)
onto_first-Lacks b c (p ∷ ps) h k = ((h, k.0), k.1)

split_from-Lacks : (s : Bytes) (c : ℕ) → All (Lacks c) (split_from (c ∷ []) 0 s)
unfolding split_from
split_from-Lacks [] c = (tt, tt)
split_from-Lacks (b ∷ s) c = elim (ℕ_discrete b c) [
  | yes e ↦ rw (e, has_prefix-append (c ∷ []) s) (tt, split_from-Lacks s c)
  | no ne ↦
      rw (has_prefix_ne b c s [] ne)
        (onto_first-Lacks b c (split_from (c ∷ []) 0 s) ne (split_from-Lacks s c))
]

-- No piece holds the separator.
pub split-Lacks : (s : Bytes) (c : ℕ) → All (Lacks c) (split s (c ∷ []))
unfolding split
split-Lacks s c = split_from-Lacks s c

-- Three fields with a separator of one byte between them, which the first two do not hold.
pub split_n_three :
    (a b rest : Bytes) (c : ℕ)
    → Lacks c a
    → Lacks c b
    → split_n (a ++ c ∷ (b ++ c ∷ rest)) (c ∷ []) 3 ≡ a ∷ b ∷ rest ∷ []
unfolding split_n
split_n_three a b rest c h k = rw (cut-append a c [] _ h, cut-append b c [] rest k)

onto_first-append :
    (b : ℕ) (ps qs : List Bytes) → ps ≢ [] → onto_first b (ps ++ qs) ≡ onto_first b ps ++ qs
onto_first-append b [] qs ne = absurd (ne refl)
onto_first-append b (p ∷ ps) qs ne = refl

split_from-ne-nil : (s : Bytes) (c : ℕ) → split_from (c ∷ []) 0 s ≢ []
unfolding split_from
split_from-ne-nil [] c e = cc
split_from-ne-nil (b ∷ s) c e = elim (ℕ_discrete b c) [
  | yes q ↦ (let k = rw (q, has_prefix-append (c ∷ []) s) at e in cc)
  | no ne ↦ onto_first-ne-nil b (split_from (c ∷ []) 0 s) (rw (has_prefix_ne b c s [] ne) at e)
]
  where
    onto_first-ne-nil : (b : ℕ) (ps : List Bytes) → onto_first b ps ≢ []
    onto_first-ne-nil b [] = λ e. cc
    onto_first-ne-nil b (p ∷ ps) = λ e. cc

-- The pieces of two texts with a separator of one byte between them.
pub split-append :
    (s : Bytes) (c : ℕ) (t : Bytes)
    → split (s ++ c ∷ t) (c ∷ []) ≡ split s (c ∷ []) ++ split t (c ∷ [])
unfolding split split_from
split-append [] c t = rw (has_prefix-append (c ∷ []) t)
split-append (b ∷ s) c t = elim (ℕ_discrete b c) [
  | yes q ↦ rw (q, has_prefix-append (c ∷ []) s) (ap (◌∷◌ []) (split-append s c t))
  | no ne ↦ rw (has_prefix_ne b c s [] ne) (
      ap (onto_first b) (split-append s c t)
      ∙ onto_first-append b (split_from (c ∷ []) 0 s) _ (split_from-ne-nil s c))
]

pub split_missing : (s : Bytes) (c : ℕ) → Lacks c s → split s (c ∷ []) ≡ s ∷ []
unfolding split
split_missing s c h = split_from_missing s c h
