-- ===== src/Local/Nets/RoundTrip.antt =====
-- `parseNetLine` reads back the lines of both kinds of table that the comment of `parseNets` shows.
use mathlib.Core.List.{append_assoc}
use k8s_jumperless.Base.{
  ℕ, ◌^◌, ◌<◌, Bool, false, not, if◌then◌else◌, none, some, List, [], ◌∷◌, ◌++◌, ◌≡◌, ◌≢◌, ◌∙◌,
  arith, Bytes, codes, ℤ, pos, lez, All, append-ne-nil, ok,
}
use k8s_jumperless.Local.Nets.Printed.{parse_nodes-join, join-IsTrimmed, join-ne-nil}
use k8s_jumperless.Local.Nets.Sound.{IsNode}
use k8s_jumperless.Local.Nets.{
  parse_voltage_part, parse_color_part, parse_index, parse_fields, parse_net_line,
}
use k8s_jumperless.Strings.Number.Laws.{IsDigit, format_nat-IsDigit, parse_int32-format_nat}
use k8s_jumperless.Strings.Number.{format_nat}
use k8s_jumperless.Strings.Space.Laws.{
  IsTrimmed, IsBlank, trim_space_fixed, trim_space_pad, space_width-append_ascii,
  no_last-append_blanks, IsTrimmed-graphic,
}
use k8s_jumperless.Strings.Split.Laws.{Lacks, cut-append, split_n_three}
use k8s_jumperless.Strings.Split.{join}

-- The index, the name and the rest of a line, with tabs between them and blanks before the last two.
abbrev pub net_line : ℕ → Bytes → Bytes → Bytes → Bytes → Bytes
net_line index name_pad name rest_pad rest =
    format_nat index ++ b'\t' ∷ ((name_pad ++ name) ++ b'\t' ∷ (rest_pad ++ rest))

pub record IsHeading (current : ℤ) (index : ℕ) (name_pad name rest_pad : Bytes) : Type 0 where
  pub above : lez (pos index) current ≡ false
  pub in_range : index < 2 ^ 31
  pub name_trimmed : IsTrimmed name
  pub name_ne_nil : name ≢ []
  pub name_field : Lacks b'\t' (name_pad ++ name)
  pub name_pad_blank : All IsBlank name_pad
  pub rest_pad_blank : All IsBlank rest_pad

digits_graphic : (s : Bytes) → All IsDigit s → All (λ b. (32 < b) × (b < 128)) s
digits_graphic [] h = tt
digits_graphic (c ∷ s) h = ((omega arith, omega arith), digits_graphic s h.1)

digits-Lacks : (s : Bytes) → All IsDigit s → Lacks b'\t' s
digits-Lacks [] h = tt
digits-Lacks (c ∷ s) h = (omega arith, digits-Lacks s h.1)

pub format_nat-IsTrimmed : (n : ℕ) → IsTrimmed (format_nat n)
format_nat-IsTrimmed n = IsTrimmed-graphic (format_nat n) (digits_graphic _ (format_nat-IsDigit n))

parse_index_printed :
    (n : ℕ) (current : ℤ)
    → n < 2 ^ 31
    → lez (pos n) current ≡ false
    → parse_index (format_nat n) current ≡ ok (pos n)
unfolding parse_index
parse_index_printed n current h above =
    rw (trim_space_fixed (format_nat n) (format_nat-IsTrimmed n), parse_int32-format_nat n h, above)

-- A line is read by its three fields.
pub parse_net_line_fields :
    (index : ℕ) (name_pad name rest_pad rest : Bytes) (has_color : Bool) (current : ℤ)
    → IsHeading current index name_pad name rest_pad
    → IsTrimmed rest
    → rest ≢ []
    → parse_net_line (net_line index name_pad name rest_pad rest) has_color current ≡ (
        if not has_color
        then parse_voltage_part (pos index) name rest
        else parse_color_part (pos index) name rest)
unfolding parse_net_line parse_fields
parse_net_line_fields index name_pad name rest_pad rest has_color current h t ne = rw (
  split_n_three (format_nat index) (name_pad ++ name) (rest_pad ++ rest) b'\t'
      (digits-Lacks _ (format_nat-IsDigit index)) h.name_field,
  parse_index_printed index current h.in_range h.above,
  trim_space_pad name_pad name h.name_pad_blank h.name_trimmed h.name_ne_nil,
  trim_space_pad rest_pad rest h.rest_pad_blank t ne,
)

-- A voltage, ` V` and the nodes behind at least one blank.
abbrev pub voltage_rest : Bytes → Bytes → List Bytes → Bytes
voltage_rest volts node_pad nodes = volts ++ (codes " V" ++ (node_pad ++ join nodes (codes ",")))

voltage_rest-IsTrimmed :
    (volts node_pad node : Bytes) (nodes : List Bytes)
    → IsTrimmed volts
    → volts ≢ []
    → node_pad ≢ []
    → All IsBlank node_pad
    → All IsNode (node ∷ nodes)
    → IsTrimmed (voltage_rest volts node_pad (node ∷ nodes))
voltage_rest-IsTrimmed volts node_pad node nodes v vne pne p h = record {
  no_first = space_width-append_ascii volts b' ' _ vne v.no_first (omega arith);
  no_last = rw (← append_assoc volts (codes " V") (node_pad ++ join (node ∷ nodes) (codes ","))) (
      no_last-append_blanks (volts ++ codes " V") node_pad (join (node ∷ nodes) (codes ",")) pne p
        (join-ne-nil node nodes h.0.ne_nil) (join-IsTrimmed node nodes h).no_last);
}

-- A printed line of the table with voltages is read back: the index, the name, the voltage with
-- a `V` behind it, and the nodes in order. The index is above the current one and fits an `int32`;
-- the name is trimmed, not empty and without a tab; the voltage is trimmed, not empty and without
-- a blank; the nodes are trimmed, not empty and without commas, with blanks before the first.
pub parse_net_line-voltage :
    (index : ℕ) (name_pad name rest_pad volts node_pad node : Bytes) (nodes : List Bytes)
    (current : ℤ)
    → IsHeading current index name_pad name rest_pad
    → IsTrimmed volts
    → volts ≢ []
    → Lacks b' ' volts
    → node_pad ≢ []
    → All IsBlank node_pad
    → All IsNode (node ∷ nodes)
    → parse_net_line
        (net_line index name_pad name rest_pad (voltage_rest volts node_pad (node ∷ nodes)))
        false
        current
      ≡ ok (record {
        index = pos index;
        name = name;
        voltage = some (volts ++ codes "V");
        color = none;
        extra = none;
        nodes = node ∷ nodes;
      })
unfolding parse_voltage_part
parse_net_line-voltage index name_pad name rest_pad volts node_pad node nodes current h v vne vl pne
      p ns =
    parse_net_line_fields index name_pad name rest_pad _ false current h
      (voltage_rest-IsTrimmed volts node_pad node nodes v vne pne p ns) (append-ne-nil volts _ vne)
    ∙ rw (
      cut-append volts b' ' (codes "V") (node_pad ++ join (node ∷ nodes) (codes ",")) vl,
      trim_space_fixed volts v,
      trim_space_pad node_pad _ p (join-IsTrimmed node nodes ns)
          (join-ne-nil node nodes ns.0.ne_nil),
      parse_nodes-join node nodes ns,
    )
