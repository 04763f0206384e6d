-- ===== src/Strings/Space/Laws.antt =====
-- What `strings.TrimSpace` removes and what it keeps.
use mathlib.Core.List.{append-nil, append_assoc, reverse-append, reverse-cons, reverse-reverse}
use mathlib.Core.Path.{subst}
use k8s_jumperless.Base.{
  ℕ, zero, suc, true, inl, inr, [], ◌∷◌, ◌++◌, ◌<◌, reverse, ◌≡◌, ◌≢◌, refl, sym, ap, ◌∙◌, arith,
  Bytes, All, All-reverse, All-append_right, ℕ-cases,
}
use k8s_jumperless.Strings.Space.{
  ascii_space, two_byte_space, three_byte_space, space_width, last_space_width, skip_spaces,
  trim_left, trim_right, trim_space,
}

-- Neither end is white space.
pub record IsTrimmed (s : Bytes) : Type 0 where
  pub no_first : space_width s ≡ 0
  pub no_last : last_space_width (reverse s) ≡ 0

abbrev pub IsBlank : ℕ → Type 0
IsBlank b = ascii_space b ≡ true

module _ (width : Bytes → ℕ) where
  skip_spaces_fixed : (s : Bytes) → width s ≡ 0 → skip_spaces width 0 s ≡ s
  unfolding skip_spaces
  skip_spaces_fixed [] h = refl
  skip_spaces_fixed (b ∷ s) h = rw (h, skip_spaces)

  skip_spaces_more :
      (b : ℕ) (s : Bytes) {n : ℕ}
      → width (b ∷ s) ≡ suc n
      → skip_spaces width 0 (b ∷ s) ≡ skip_spaces width n s
  unfolding skip_spaces
  skip_spaces_more b s h = rw (h, skip_spaces)

  width-skip_spaces : width [] ≡ 0 → (n : ℕ) (s : Bytes) → width (skip_spaces width n s) ≡ 0
  unfolding skip_spaces
  width-skip_spaces e n [] = e
  width-skip_spaces e (suc n) (b ∷ s) = width-skip_spaces e n s
  width-skip_spaces e zero (b ∷ s) = elim (ℕ-cases (width (b ∷ s))) [
    | inl h ↦ rw (skip_spaces_fixed (b ∷ s) h) h
    | inr (n, h) ↦ rw (skip_spaces_more b s h) (width-skip_spaces e n s)
  ]

  skip_spaces_suffix : (n : ℕ) (s : Bytes) → (q : Bytes) × (s ≡ q ++ skip_spaces width n s)
  unfolding skip_spaces
  skip_spaces_suffix n [] = ([], refl)
  skip_spaces_suffix (suc n) (b ∷ s) = let (q, e) = skip_spaces_suffix n s in (b ∷ q, ap (◌∷◌ b) e)
  skip_spaces_suffix zero (b ∷ s) = elim (ℕ-cases (width (b ∷ s))) [
    | inl h ↦ ([], sym (skip_spaces_fixed (b ∷ s) h))
    | inr (n, h) ↦
        let (q, e) = skip_spaces_suffix n s in
        (b ∷ q, ap (◌∷◌ b) (e ∙ ap (◌++◌ q) (sym (skip_spaces_more b s h))))
  ]

-- White space at the start of a string is there in every longer string.
space_width_prefix : (p q : Bytes) → space_width (p ++ q) ≡ 0 → space_width p ≡ 0
unfolding space_width
space_width_prefix [] q h = refl
space_width_prefix (a ∷ []) [] h = h
space_width_prefix (a ∷ []) (b ∷ []) h = ground arith
space_width_prefix (a ∷ []) (b ∷ c ∷ q) h = ground arith
space_width_prefix (a ∷ b ∷ []) [] h = h
space_width_prefix (a ∷ b ∷ []) (c ∷ q) h = ground arith
space_width_prefix (a ∷ b ∷ c ∷ p) q h = h

-- `trim_right s` is `s` without an end.
trim_right_prefix : (s : Bytes) → (q : Bytes) × (s ≡ trim_right s ++ q)
unfolding trim_right
trim_right_prefix s =
    let (q, e) = skip_spaces_suffix last_space_width 0 (reverse s) in
    (reverse q, sym (reverse-reverse s) ∙ ap reverse e ∙ reverse-append q _)

pub trim_space-IsTrimmed : (s : Bytes) → IsTrimmed (trim_space s)
unfolding trim_space
trim_space-IsTrimmed s =
    let t = trim_left s in
    let (q, e) = trim_right_prefix t in
    record {
      no_first =
          space_width_prefix (trim_right t) q
            (rw (← e) (width-skip_spaces space_width (unfold space_width in refl) 0 s));
      no_last =
          rw reverse-reverse
            (width-skip_spaces last_space_width (unfold last_space_width in refl) 0 (reverse t));
    }

-- A string with no white space at its ends is left as it is.
pub trim_space_fixed : (s : Bytes) → IsTrimmed s → trim_space s ≡ s
unfolding trim_space
trim_space_fixed s t =
    rw (skip_spaces_fixed space_width s t.no_first)
      (ap reverse (skip_spaces_fixed last_space_width (reverse s) t.no_last) ∙ reverse-reverse s)

-- `TrimSpace` twice is `TrimSpace` once.
pub trim_space-trim_space : (s : Bytes) → trim_space (trim_space s) ≡ trim_space s
trim_space-trim_space s = trim_space_fixed (trim_space s) (trim_space-IsTrimmed s)

-- Blanks around a string are removed, and nothing of a string with none at its ends is.
space_width_blank : (b : ℕ) (s : Bytes) → IsBlank b → space_width (b ∷ s) ≡ 1
unfolding space_width
space_width_blank b [] h = rw h
space_width_blank b (c ∷ []) h = rw h
space_width_blank b (c ∷ d ∷ s) h = rw h

last_space_width_blank : (b : ℕ) (s : Bytes) → IsBlank b → last_space_width (b ∷ s) ≡ 1
unfolding last_space_width
last_space_width_blank b [] h = rw h
last_space_width_blank b (c ∷ []) h = rw h
last_space_width_blank b (c ∷ d ∷ s) h = rw h

skip_spaces_blanks :
    (width : Bytes → ℕ)
    → ((b : ℕ) (s : Bytes) → IsBlank b → width (b ∷ s) ≡ 1)
    → (blanks s : Bytes) → All IsBlank blanks
    → skip_spaces width 0 (blanks ++ s) ≡ skip_spaces width 0 s
skip_spaces_blanks width w [] s h = refl
skip_spaces_blanks width w (b ∷ bs) s h =
    skip_spaces_more width b (bs ++ s) (w b (bs ++ s) h.0) ∙ skip_spaces_blanks width w bs s h.1

-- A byte below 128 is a character by itself, so white space does not extend across it.
pub space_width-append_ascii :
    (s : Bytes) (b : ℕ) (r : Bytes)
    → s ≢ []
    → space_width s ≡ 0
    → b < 128
    → space_width (s ++ b ∷ r) ≡ 0
unfolding space_width two_byte_space three_byte_space
space_width-append_ascii [] b r ne h k = absurd (ne refl)
space_width-append_ascii (a ∷ []) b [] ne h k = ground arith
space_width-append_ascii (a ∷ []) b (c ∷ r) ne h k = ground arith
space_width-append_ascii (a ∷ c ∷ []) b r ne h k = ground arith
space_width-append_ascii (a ∷ c ∷ d ∷ s) b r ne h k = h

pub last_space_width-append_ascii :
    (s : Bytes) (b : ℕ) (r : Bytes)
    → s ≢ []
    → last_space_width s ≡ 0
    → b < 128
    → last_space_width (s ++ b ∷ r) ≡ 0
unfolding last_space_width two_byte_space three_byte_space
last_space_width-append_ascii [] b r ne h k = absurd (ne refl)
last_space_width-append_ascii (a ∷ []) b [] ne h k = ground arith
last_space_width-append_ascii (a ∷ []) b (c ∷ r) ne h k = ground arith
last_space_width-append_ascii (a ∷ c ∷ []) b r ne h k = ground arith
last_space_width-append_ascii (a ∷ c ∷ d ∷ s) b r ne h k = h

pub IsBlank-ascii : (b : ℕ) → IsBlank b → b < 128
unfolding ascii_space
IsBlank-ascii b h = ground arith

trim_left_padded :
    (before s after : Bytes)
    → All IsBlank before
    → All IsBlank after
    → space_width s ≡ 0
    → s ≢ []
    → trim_left (before ++ (s ++ after)) ≡ s ++ after
unfolding trim_left
trim_left_padded before s [] h k t ne = rw append-nil (
    skip_spaces_blanks space_width space_width_blank before s h ∙ skip_spaces_fixed space_width s t)
trim_left_padded before s (b ∷ after) h k t ne =
    skip_spaces_blanks space_width space_width_blank before (s ++ b ∷ after) h
    ∙ skip_spaces_fixed space_width (s ++ b ∷ after)
        (space_width-append_ascii s b after ne t (IsBlank-ascii b k.0))

trim_right_padded :
    (s after : Bytes)
    → All IsBlank after
    → last_space_width (reverse s) ≡ 0
    → trim_right (s ++ after) ≡ s
unfolding trim_right
trim_right_padded s after k t =
    ap reverse (
      ap (skip_spaces last_space_width 0) (reverse-append s after)
      ∙ skip_spaces_blanks last_space_width last_space_width_blank (reverse after) (reverse s)
          (All-reverse IsBlank after k)
      ∙ skip_spaces_fixed last_space_width (reverse s) t)
    ∙ reverse-reverse s

pub trim_space_padded :
    (before s after : Bytes)
    → All IsBlank before
    → All IsBlank after
    → IsTrimmed s
    → s ≢ []
    → trim_space (before ++ (s ++ after)) ≡ s
unfolding trim_space
trim_space_padded before s after h k t ne =
    rw (trim_left_padded before s after h k t.no_first ne) (trim_right_padded s after k t.no_last)

-- The bytes of a trimmed string are bytes of the string.
pub All-trim_space {ℓ} : (P : ℕ → Type ℓ) (s : Bytes) → All P s → All P (trim_space s)
unfolding trim_space trim_left trim_right
All-trim_space P s h =
    let (q, e) = skip_spaces_suffix space_width 0 s in
    let t = trim_left s in
    let left : All P t = All-append_right P q t (subst (All P) e h) in
    let (r, d) = skip_spaces_suffix last_space_width 0 (reverse t) in
    All-reverse P _ (All-append_right P r _ (subst (All P) d (All-reverse P t left)))

reverse-ne-nil : (s : Bytes) → s ≢ [] → reverse s ≢ []
reverse-ne-nil s ne e = ne (sym (reverse-reverse s) ∙ ap reverse e)

-- Bytes below 128 between two trimmed strings leave the ends as they are.
pub no_last-append :
    (r : Bytes) (b : ℕ) (t : Bytes)
    → t ≢ []
    → last_space_width (reverse t) ≡ 0
    → b < 128
    → last_space_width (reverse (r ++ b ∷ t)) ≡ 0
no_last-append r b t ne h k =
    rw (reverse-append, reverse-cons, append_assoc)
      (last_space_width-append_ascii (reverse t) b (reverse r) (reverse-ne-nil t ne) h k)

pub no_last-append_blanks :
    (r blanks t : Bytes)
    → blanks ≢ []
    → All IsBlank blanks
    → t ≢ []
    → last_space_width (reverse t) ≡ 0
    → last_space_width (reverse (r ++ (blanks ++ t))) ≡ 0
no_last-append_blanks r [] t ne h nt k = absurd (ne refl)
no_last-append_blanks r (b ∷ []) t ne h nt k = no_last-append r b t nt k (IsBlank-ascii b h.0)
no_last-append_blanks r (b ∷ c ∷ bs) t ne h nt k =
    rw (← append_assoc r (b ∷ []) (c ∷ bs ++ t))
      (no_last-append_blanks (r ++ b ∷ []) (c ∷ bs) t (λ e. cc) h.1 nt k)

-- An ASCII string with no blank at its ends.
pub IsTrimmed-graphic : (s : Bytes) → All (λ b. (32 < b) × (b < 128)) s → IsTrimmed s
unfolding space_width last_space_width ascii_space two_byte_space three_byte_space
IsTrimmed-graphic s h = record {
  no_first = first s h;
  no_last = last (reverse s) (All-reverse (λ b. (32 < b) × (b < 128)) s h);
}
  where
    first : (s : Bytes) → All (λ b. (32 < b) × (b < 128)) s → space_width s ≡ 0
    first [] h = refl
    first (a ∷ []) h = ground arith
    first (a ∷ b ∷ []) h = ground arith
    first (a ∷ b ∷ c ∷ s) h = ground arith

    last : (s : Bytes) → All (λ b. (32 < b) × (b < 128)) s → last_space_width s ≡ 0
    last [] h = refl
    last (a ∷ []) h = ground arith
    last (a ∷ b ∷ []) h = ground arith
    last (a ∷ b ∷ c ∷ s) h = ground arith

pub trim_space_pad :
    (pad s : Bytes) → All IsBlank pad → IsTrimmed s → s ≢ [] → trim_space (pad ++ s) ≡ s
trim_space_pad pad s h t ne =
    ap (λ r. trim_space (pad ++ r)) (sym (append-nil s)) ∙ trim_space_padded pad s [] h tt t ne
