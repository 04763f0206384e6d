-- ===== src/Local/Nets.antt =====
-- `parseNetLine` and `parseNets` of internal/controller/local/local.go.
pub mod ColorLine
pub mod Colored
pub mod Printed
pub mod Repeated
pub mod Reported
pub mod RoundTrip
pub mod Sound
pub mod Uncover
use k8s_jumperless.Api.Types.{Net}
use k8s_jumperless.Base.{
  ℕ, Bool, true, false, not, ◌&&◌, ◌||◌, Option, none, some, List, [], ◌∷◌, ◌++◌, ◌==◌, leb,
  if◌then◌else◌, Bytes, codes, ℤ, pos, lez, Result, ok, err, of_option, ◌>>=◌,
}
use k8s_jumperless.Strings.Affix.{has_prefix, trim_prefix}
use k8s_jumperless.Strings.Number.{parse_int32}
use k8s_jumperless.Strings.Space.{trim_space}
use k8s_jumperless.Strings.Split.{cut, contains, split, split_n}

-- The errors of `parseNetLine`, by what they report. All but `duplicate_index` and `bad_index`
-- wrap `ErrParseNetLine`; `duplicate_index` wraps `ErrParseLineDuplicateIndex`.
pub data NetError : Type 0 where
  too_few_fields bad_index duplicate_index no_voltage no_color : NetError

-- `namedColors`
abbrev pub named_colors : List Bytes
named_colors =
    codes "red"
    ∷ codes "orange"
    ∷ codes "amber"
    ∷ codes "yellow"
    ∷ codes "chartreuse"
    ∷ codes "green"
    ∷ codes "seafoam"
    ∷ codes "cyan"
    ∷ codes "blue"
    ∷ codes "royal blue"
    ∷ codes "indigo"
    ∷ codes "violet"
    ∷ codes "purple"
    ∷ codes "pink"
    ∷ codes "magenta"
    ∷ codes "white"
    ∷ codes "black"
    ∷ codes "grey"
    ∷ []

-- `\b`
abbrev pub backspace : ℕ
backspace = 8

-- `for strings.HasPrefix(rest, "\b") { rest = strings.TrimPrefix(rest, "\b") }`
unfoldable pub trim_backspaces : Bytes → Bytes
trim_backspaces [] = []
trim_backspaces (c ∷ s) = let rest = trim_backspaces s in if c == backspace then rest else c ∷ s

-- The first color of the list that the text begins with, and the text behind it.
unfoldable pub find_color : List Bytes → Bytes → Option (Bytes × Bytes)
unfolding has_prefix trim_prefix trim_space
find_color [] rest = none
find_color (color ∷ colors) rest =
    let later = find_color colors rest in
    if has_prefix rest color then some (color, trim_space (trim_prefix rest color)) else later

-- The text that `^- [[:alpha:]]` matches, empty if it does not match.
unfoldable pub find_marker : Bytes → Bytes
find_marker (a ∷ b ∷ c ∷ _) =
    if a == b'-' && b == b' ' && ((leb b'A' c && leb c b'Z') || (leb b'a' c && leb c b'z'))
    then a ∷ b ∷ c ∷ []
    else []
find_marker _ = []

unfoldable pub drop_marker : Bytes → Bytes
unfolding find_marker trim_prefix trim_space
drop_marker rest = elim (find_marker rest) [
  | [] ↦ rest
  | c ∷ m ↦ trim_space (trim_prefix rest (c ∷ m))
]

-- The trimmed pieces that are not empty.
unfoldable pub trimmed_pieces : List Bytes → List Bytes
unfolding trim_space
trimmed_pieces [] = []
trimmed_pieces (p ∷ ps) = elim (trim_space p) [
  | [] ↦ trimmed_pieces ps
  | c ∷ s ↦ (c ∷ s) ∷ trimmed_pieces ps
]

unfoldable pub parse_nodes : Bytes → List Bytes
unfolding trimmed_pieces split
parse_nodes nodes_part = trimmed_pieces (split nodes_part (codes ","))

-- The rest of a line in a table with voltages.
unfoldable pub parse_voltage_part : ℤ → Bytes → Bytes → Result NetError Net
unfolding cut trim_space parse_nodes
parse_voltage_part index name rest =
    let (before, after, found) = cut rest (codes " V") in
    if not found
    then err no_voltage
    else ok (record {
      index = index;
      name = name;
      voltage = some (trim_space before ++ codes "V");
      color = none;
      extra = none;
      nodes = parse_nodes (trim_space after);
    })

-- The rest of a line in a table with colors, behind the color.
unfoldable pub parse_colored : ℤ → Bytes → Bytes × Bytes → Net
unfolding drop_marker cut trim_space parse_nodes
parse_colored index name (color, rest) =
    let (before, after, found) = cut (drop_marker rest) (codes "\t") in
    record {
      index = index;
      name = name;
      voltage = none;
      color = some color;
      extra = if found then some (trim_space after) else none;
      nodes = parse_nodes (trim_space before);
    }

unfoldable pub parse_color_part : ℤ → Bytes → Bytes → Result NetError Net
unfolding trim_backspaces trim_prefix trim_space find_color parse_colored
parse_color_part index name rest =
    let uncovered = trim_space (trim_prefix (trim_backspaces rest) (codes "*")) in
    of_option (find_color named_colors uncovered) no_color >>= λ found.
    ok (parse_colored index name found)

-- The index of a line, which must be greater than the current one.
unfoldable pub parse_index : Bytes → ℤ → Result NetError ℤ
unfolding parse_int32 trim_space
parse_index field current = of_option (parse_int32 (trim_space field)) bad_index >>= λ index.
    if lez index current then err duplicate_index else ok index

unfoldable pub parse_fields : List Bytes → Bool → ℤ → Result NetError Net
unfolding parse_index trim_space parse_voltage_part parse_color_part
parse_fields (f0 ∷ f1 ∷ f2 ∷ _) has_color current = parse_index f0 current >>= λ index.
    if not has_color
    then parse_voltage_part index (trim_space f1) (trim_space f2)
    else parse_color_part index (trim_space f1) (trim_space f2)
parse_fields _ has_color current = err too_few_fields

-- `parseNetLine`
unfoldable pub parse_net_line : Bytes → Bool → ℤ → Result NetError Net
unfolding split_n parse_fields
parse_net_line line has_color current = parse_fields (split_n line (codes "\t") 3) has_color current

-- What the loop of `parseNets` keeps: `hasColor`, the nets collected and the errors.
pub record NetScan : Type 0 where
  pub has_color : Bool
  pub nets : List Net
  pub errs : List NetError

-- `errors.Is(err, ErrParseLineDuplicateIndex)`
abbrev pub is_duplicate : NetError → Bool
is_duplicate duplicate_index = true
is_duplicate _ = false

abbrev pub collect_net : NetScan → Result NetError Net → NetScan
collect_net scan (ok net) = record scan { nets = scan.nets ++ net ∷ [] }
collect_net scan (err e) =
    if is_duplicate e then scan else record scan { errs = scan.errs ++ e ∷ [] }

-- One turn of the loop. `currentIndex` is 0 in every turn: the loop does not assign it.
unfoldable pub scan_line : NetScan → Bytes → NetScan
unfolding trim_space has_prefix contains parse_net_line
scan_line scan line = elim (trim_space line) [
  | [] ↦ scan
  | c ∷ s ↦
      let trimmed = c ∷ s in
      if has_prefix trimmed (codes "Index")
      then record scan { has_color = contains trimmed (codes "Color") }
      else collect_net scan (parse_net_line trimmed scan.has_color (pos 0))
]

unfoldable pub scan_lines : NetScan → List Bytes → NetScan
unfolding scan_line
scan_lines scan [] = scan
scan_lines scan (line ∷ lines) = scan_lines (scan_line scan line) lines

-- `parseNets`: the nets, and the errors that it hands to `NewAggregate`.
unfoldable pub parse_nets : Bytes → List Net × List NetError
unfolding scan_lines split
parse_nets nets_output =
    let scan =
      scan_lines (record { has_color = false; nets = []; errs = [] })
        (split nets_output (codes "\n")) in
    (scan.nets, scan.errs)
