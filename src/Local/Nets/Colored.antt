-- ===== src/Local/Nets/Colored.antt =====
-- `parseNetLine` reads back the lines of the table with colors, in all the forms of the comment.
use mathlib.Core.List.{append_assoc}
use k8s_jumperless.Base.{
  ℕ, zero, suc, leb, ◌||◌, true, if◌then◌else◌, ◌&&◌, Option, none, some, List, [], ◌∷◌, ◌++◌, ◌≡◌,
  ◌≢◌, refl, ap, ◌∙◌, arith, Bytes, codes, All, All-append, append-ne-nil,
}
use k8s_jumperless.Local.Nets.{backspace, find_marker, drop_marker}
use k8s_jumperless.Strings.Affix.Laws.{trim_prefix-append}
use k8s_jumperless.Strings.Space.Laws.{
  IsTrimmed, IsBlank, trim_space_pad, IsBlank-ascii, trim_space_fixed, trim_space_padded,
  space_width-append_ascii, no_last-append_blanks,
}
use k8s_jumperless.Strings.Space.{trim_space, ascii_space, space_width}
use k8s_jumperless.Strings.Split.Laws.{Lacks, cut-append, cut_missing}
use k8s_jumperless.Strings.Split.{cut, join}

-- What stands before the color: nothing, or backspaces, a `*` and blanks.
pub data Decoration : Type 0 where
  plain : Decoration
  starred : ℕ → Bytes → Decoration

-- What stands behind the nodes: nothing, or blanks, a tab, blanks and more text.
pub data Tail : Type 0 where
  no_tail : Tail
  tail : Bytes → Bytes → Bytes → Tail

unfoldable pub backspaces : ℕ → Bytes → Bytes
backspaces zero s = s
backspaces (suc n) s = backspace ∷ backspaces n s

unfoldable pub decorate : Decoration → Bytes → Bytes
unfolding backspaces
decorate plain s = s
decorate (starred n pad) s = backspaces n (b'*' ∷ (pad ++ s))

unfoldable pub with_tail : Bytes → Tail → Bytes
with_tail s no_tail = s
with_tail s (tail before after text) = s ++ (before ++ b'\t' ∷ (after ++ text))

abbrev pub tail_text : Tail → Option Bytes
tail_text no_tail = none
tail_text (tail before after text) = some text

-- A `- f` or the like, and blanks.
abbrev pub marked : Option (ℕ × Bytes) → Bytes → Bytes
marked none s = s
marked (some (letter, pad)) s = b'-' ∷ b' ' ∷ letter ∷ (pad ++ s)

abbrev pub IsLetter : ℕ → Type 0
IsLetter c = ((leb b'A' c && leb c b'Z') || (leb b'a' c && leb c b'z')) ≡ true

abbrev pub IsMarker : Option (ℕ × Bytes) → Type 0
IsMarker none = Unit
IsMarker (some (letter, pad)) = IsLetter letter × (pad ≢ []) × All IsBlank pad

abbrev pub IsDecoration : Decoration → Type 0
IsDecoration plain = Unit
IsDecoration (starred n pad) = (pad ≢ []) × All IsBlank pad

abbrev pub IsTail : Tail → Type 0
IsTail no_tail = Unit
IsTail (tail before after text) =
    All IsBlank before × Lacks b'\t' before × All IsBlank after × IsTrimmed text × (text ≢ [])

-- A node that can be told from a marker and from a tail.
abbrev pub IsPlainNode : Bytes → Type 0
IsPlainNode [] = ⊥
IsPlainNode (c ∷ s) = (c ≢ b'-') × Lacks b'\t' (c ∷ s)

tab-IsBlank : IsBlank b'\t'
unfolding ascii_space
tab-IsBlank = refl

dash_first : space_width (b'-' ∷ []) ≡ 0
unfolding space_width ascii_space
dash_first = refl

pub join-Lacks :
    (nodes : List Bytes) → All (Lacks b'\t') nodes → Lacks b'\t' (join nodes (codes ","))
unfolding join
join-Lacks [] h = tt
join-Lacks (node ∷ []) h = h.0
join-Lacks (node ∷ q ∷ nodes) h =
    All-append (λ b. b ≢ b'\t') node _ h.0 ((λ e. absurd (omega arith)), join-Lacks (q ∷ nodes) h.1)

module _ (s : Bytes) (t : IsTrimmed s) (ne : s ≢ []) where
  pub with_tail-ne-nil : (tl : Tail) → with_tail s tl ≢ []
  unfolding with_tail
  with_tail-ne-nil no_tail = ne
  with_tail-ne-nil (tail before after text) = append-ne-nil s _ ne

  pub with_tail-IsTrimmed : (tl : Tail) → IsTail tl → IsTrimmed (with_tail s tl)
  unfolding with_tail
  with_tail-IsTrimmed no_tail h = t
  with_tail-IsTrimmed (tail [] after text) (hb, lb, ha, tt', nt) = record {
    no_first = space_width-append_ascii s b'\t' _ ne t.no_first (omega arith);
    no_last =
        no_last-append_blanks s (b'\t' ∷ after) text (λ e. cc) (tab-IsBlank, ha) nt tt'.no_last;
  }
  with_tail-IsTrimmed (tail (b ∷ before) after text) (hb, lb, ha, tt', nt) = record {
    no_first = space_width-append_ascii s b _ ne t.no_first (IsBlank-ascii b hb.0);
    no_last = rw (← append_assoc s (b ∷ before) (b'\t' ∷ (after ++ text))) (
        no_last-append_blanks (s ++ b ∷ before) (b'\t' ∷ after) text (λ e. cc) (tab-IsBlank, ha) nt
          tt'.no_last);
  }

  -- The text before the tab, trimmed, and the text behind it.
  pub cut-with_tail :
      (tl : Tail)
      → IsTail tl
      → Lacks b'\t' s
      → let c = cut (with_tail s tl) (codes "\t") in
        (trim_space c.0 ≡ s) × ((if c.2 then some (trim_space c.1) else none) ≡ tail_text tl)
  unfolding with_tail
  cut-with_tail no_tail h l = rw (cut_missing s b'\t' [] l) (trim_space_fixed s t, refl)
  cut-with_tail (tail before after text) (hb, lb, ha, tt', nt) l =
      rw (← append_assoc s before (b'\t' ∷ (after ++ text))) (
        rw
          (cut-append (s ++ before) b'\t' [] (after ++ text)
            (All-append (λ b. b ≢ b'\t') s before l lb))
          (trim_space_padded [] s before tt hb t ne, ap some (trim_space_pad after text ha tt' nt)))

module _ (s : Bytes) (t : IsTrimmed s) (ne : s ≢ []) where
  pub marked-ne-nil : (m : Option (ℕ × Bytes)) → marked m s ≢ []
  marked-ne-nil none = ne
  marked-ne-nil (some (letter, pad)) = λ e. cc

  pub marked-IsTrimmed : (m : Option (ℕ × Bytes)) → IsMarker m → IsTrimmed (marked m s)
  marked-IsTrimmed none h = t
  marked-IsTrimmed (some (letter, pad)) (l, np, bp) = record {
    no_first = space_width-append_ascii (b'-' ∷ []) b' ' _ (λ e. cc) dash_first (omega arith);
    no_last = no_last-append_blanks (b'-' ∷ b' ' ∷ letter ∷ []) pad s np bp ne t.no_last;
  }

  pub drop_marker-marked :
      (m : Option (ℕ × Bytes)) → IsMarker m → find_marker s ≡ [] → drop_marker (marked m s) ≡ s
  unfolding drop_marker
  drop_marker-marked none h e = rw (e, drop_marker)
  drop_marker-marked (some (letter, pad)) (l, np, bp) e =
      rw (found, drop_marker)
        (ap trim_space (trim_prefix-append (b'-' ∷ b' ' ∷ letter ∷ []) (pad ++ s))
          ∙ trim_space_pad pad s bp t ne)
    where
      found : find_marker (b'-' ∷ b' ' ∷ letter ∷ (pad ++ s)) ≡ b'-' ∷ b' ' ∷ letter ∷ []
      found = rw (l, find_marker)
