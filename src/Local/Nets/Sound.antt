-- ===== src/Local/Nets/Sound.antt =====
-- What holds of every net that `parseNetLine` returns.
use mathlib.Core.Path.{subst}
use k8s_jumperless.Api.Types.{Net}
use k8s_jumperless.Base.{
  ◌^◌, ◌<◌, Bool, true, false, not, if◌then◌else◌, sym, none, some, List, [], ◌∷◌, ◌++◌, ◌≡◌, ◌≢◌,
  refl, arith, Bytes, codes, ℤ, pos_part, lez, ◌<ℤ◌, lt_of_lez, All, ok, of_option, >>=-eq-ok,
  ok-injective, of_option-eq-ok, Bool-cases, inl, inr,
}
use k8s_jumperless.Local.Nets.{
  bad_index, named_colors, find_color, drop_marker, trim_backspaces, trimmed_pieces, parse_nodes,
  parse_voltage_part, parse_colored, parse_color_part, parse_index, parse_fields, parse_net_line,
}
use k8s_jumperless.Strings.Affix.Laws.{has_suffix-append}
use k8s_jumperless.Strings.Affix.{has_prefix, has_suffix, trim_prefix}
use k8s_jumperless.Strings.Number.{parse_int32}
use k8s_jumperless.Strings.Number.Laws.{parse_int32_range}
use k8s_jumperless.Strings.Space.Laws.{IsTrimmed, trim_space-IsTrimmed, All-trim_space}
use k8s_jumperless.Strings.Space.{trim_space}
use k8s_jumperless.Strings.Split.Laws.{Lacks, split-Lacks}
use k8s_jumperless.Strings.Split.{cut, split, split_n}

-- A node is not empty, has no white space at its ends and no comma.
pub record IsNode (node : Bytes) : Type 0 where
  pub ne_nil : node ≢ []
  pub trimmed : IsTrimmed node
  pub one_piece : Lacks b',' node

-- A table with voltages gives a voltage that ends in `V` and nothing else; a table with colors
-- gives one of the named colors and no voltage.
pub data IsOneOf : Bytes → List Bytes → Type 0 where
  here : {c d : Bytes} {cs : List Bytes} → c ≡ d → IsOneOf c (d ∷ cs)
  there : {c d : Bytes} {cs : List Bytes} → IsOneOf c cs → IsOneOf c (d ∷ cs)

abbrev pub Reading : Bool → Net → Type 0
Reading false net =
    (v : Bytes) × (net.voltage ≡ some v)
    × (has_suffix v (codes "V") ≡ true)
    × (net.color ≡ none)
    × (net.extra ≡ none)
Reading true net =
    (c : Bytes) × (net.color ≡ some c) × IsOneOf c named_colors × (net.voltage ≡ none)

pub record IsParsed (has_color : Bool) (current : ℤ) (net : Net) : Type 0 where
  pub above : current <ℤ net.index
  pub in_range : pos_part net.index < 2 ^ 31
  pub name_trimmed : IsTrimmed net.name
  pub nodes : All IsNode net.nodes
  pub reading : Reading has_color net

trimmed_pieces-IsNode : (ps : List Bytes) → All (Lacks b',') ps → All IsNode (trimmed_pieces ps)
unfolding trimmed_pieces
trimmed_pieces-IsNode [] h = tt
trimmed_pieces-IsNode (p ∷ ps) h =
    go (trim_space p) (trim_space-IsTrimmed p) (All-trim_space (λ b. b ≢ b',') p h.0)
      (trimmed_pieces-IsNode ps h.1)
  where
    go :
        (s : Bytes)
        → IsTrimmed s
        → Lacks b',' s
        → All IsNode (trimmed_pieces ps)
        → All IsNode (elim s [ [] ↦ trimmed_pieces ps | c ∷ r ↦ (c ∷ r) ∷ trimmed_pieces ps ])
    go [] t l rest = rest
    go (c ∷ r) t l rest = (record { ne_nil = λ e. cc; trimmed = t; one_piece = l }, rest)

parse_nodes-IsNode : (s : Bytes) → All IsNode (parse_nodes s)
unfolding parse_nodes
parse_nodes-IsNode s = trimmed_pieces-IsNode (split s (codes ",")) (split-Lacks s b',')

find_color-IsOneOf :
    (colors : List Bytes) (rest : Bytes) (found : Bytes × Bytes)
    → find_color colors rest ≡ some found
    → IsOneOf found.0 colors
unfolding find_color
find_color-IsOneOf [] rest found h = cc
find_color-IsOneOf (color ∷ colors) rest found h = elim (Bool-cases (has_prefix rest color)) [
  | inl e ↦ here (let k = rw e at h in ground arith)
  | inr e ↦ there (find_color-IsOneOf colors rest found (rw e at h))
]

module _ (index : ℤ) (name : Bytes) where
  abbrev Keeps : Bool → Net → Type 0
  Keeps has_color net =
      (net.index ≡ index) × (net.name ≡ name) × All IsNode net.nodes × Reading has_color net

  parse_voltage_part-Keeps :
      (rest : Bytes) (net : Net) → parse_voltage_part index name rest ≡ ok net → Keeps false net
  unfolding parse_voltage_part
  parse_voltage_part-Keeps rest net h = elim (Bool-cases (cut rest (codes " V")).2) [
    | inl e ↦ subst (Keeps false) (ok-injective (rw e at h)) (
      refl,
      refl,
      parse_nodes-IsNode (trim_space (cut rest (codes " V")).1),
      (
        trim_space (cut rest (codes " V")).0 ++ codes "V",
        refl,
        has_suffix-append _ (codes "V"),
        refl,
        refl,
      ),
    )
    | inr e ↦ (let k = rw e at h in cc)
  ]

  parse_colored-Keeps :
      (found : Bytes × Bytes)
      → IsOneOf found.0 named_colors
      → Keeps true (parse_colored index name found)
  unfolding parse_colored
  parse_colored-Keeps (color, rest) h = (
    refl,
    refl,
    parse_nodes-IsNode (trim_space (cut (drop_marker rest) (codes "\t")).0),
    (color, refl, h, refl),
  )

  parse_color_part-Keeps :
      (rest : Bytes) (net : Net) → parse_color_part index name rest ≡ ok net → Keeps true net
  unfolding parse_color_part
  parse_color_part-Keeps rest net h =
      let (found, e, k) = >>=-eq-ok _ (λ found. ok (parse_colored index name found)) h in
      subst (Keeps true) (ok-injective k) (
        parse_colored-Keeps found (
          find_color-IsOneOf named_colors
            (trim_space (trim_prefix (trim_backspaces rest) (codes "*"))) found
            (of_option-eq-ok _ _ e)))

parse_index-eq-ok :
    (field : Bytes) (current index : ℤ)
    → parse_index field current ≡ ok index
    → (current <ℤ index) × (pos_part index < 2 ^ 31)
unfolding parse_index
parse_index-eq-ok field current index h =
    let (i, e, k) = >>=-eq-ok (of_option (parse_int32 (trim_space field)) bad_index) _ h in
    let r = parse_int32_range (trim_space field) i (of_option-eq-ok _ _ e) in
    elim (Bool-cases (lez i current)) [
      | inl f ↦ (let q = rw f at k in cc)
      | inr f ↦
          subst (λ j. (current <ℤ j) × (pos_part j < 2 ^ 31)) (ok-injective (rw f at k))
            (lt_of_lez i current f, r)
    ]

parse_fields-IsParsed :
    (fields : List Bytes) (has_color : Bool) (current : ℤ) (net : Net)
    → parse_fields fields has_color current ≡ ok net
    → IsParsed has_color current net
unfolding parse_fields
parse_fields-IsParsed [] has_color current net h = cc
parse_fields-IsParsed (f0 ∷ []) has_color current net h = cc
parse_fields-IsParsed (f0 ∷ f1 ∷ []) has_color current net h = cc
parse_fields-IsParsed (f0 ∷ f1 ∷ f2 ∷ fs) has_color current net h =
    let (index, e, k) = >>=-eq-ok (parse_index f0 current) _ h in
    go has_color index (parse_index-eq-ok f0 current index e) k
  where
    finish :
        (has_color : Bool) (index : ℤ)
        → (current <ℤ index) × (pos_part index < 2 ^ 31)
        → Keeps index (trim_space f1) has_color net
        → IsParsed has_color current net
    finish has_color index (above, in_range) (i, n, nodes, reading) = record {
      above = subst (λ j. current <ℤ j) (sym i) above;
      in_range = subst (λ j. pos_part j < 2 ^ 31) (sym i) in_range;
      name_trimmed = subst IsTrimmed (sym n) (trim_space-IsTrimmed f1);
      nodes = nodes;
      reading = reading;
    }

    go :
        (has_color : Bool) (index : ℤ)
        → (current <ℤ index) × (pos_part index < 2 ^ 31)
        → (if not has_color
            then parse_voltage_part index (trim_space f1) (trim_space f2)
            else parse_color_part index (trim_space f1) (trim_space f2))
          ≡ ok net
        → IsParsed has_color current net
    go false index r k =
        finish false index r (parse_voltage_part-Keeps index _ (trim_space f2) net k)
    go true index r k = finish true index r (parse_color_part-Keeps index _ (trim_space f2) net k)

-- What `parseNetLine` returns: an index above the current one that fits an `int32`, a trimmed
-- name, nodes that are not empty, trimmed and without a comma, and the reading of the table.
pub parse_net_line-IsParsed :
    (line : Bytes) (has_color : Bool) (current : ℤ) (net : Net)
    → parse_net_line line has_color current ≡ ok net
    → IsParsed has_color current net
unfolding parse_net_line
parse_net_line-IsParsed line has_color current net =
    parse_fields-IsParsed (split_n line (codes "\t") 3) has_color current net
