-- ===== src/Local/Nets/ColorLine.antt =====
-- A whole printed line of the table with colors, through each step of `parseNetLine`.
use k8s_jumperless.Api.Types.{Net}
use k8s_jumperless.Base.{
  ℕ, true, Option, none, some, List, [], ◌∷◌, ◌++◌, ◌≡◌, ◌≢◌, ap, ◌∙◌, Bytes, codes, ℤ, pos, All,
  ok,
}
use k8s_jumperless.Local.Nets.Colored.{
  Decoration, Tail, tail, no_tail, decorate, with_tail, tail_text, marked, IsMarker, IsDecoration,
  IsTail, IsPlainNode, join-Lacks, with_tail-ne-nil, with_tail-IsTrimmed, cut-with_tail,
  marked-ne-nil, marked-IsTrimmed, drop_marker-marked,
}
use k8s_jumperless.Local.Nets.Printed.{
  parse_nodes-join, join-IsTrimmed, join-ne-nil, find_color_named,
}
use k8s_jumperless.Local.Nets.RoundTrip.{net_line, IsHeading, parse_net_line_fields}
use k8s_jumperless.Local.Nets.Sound.{IsNode, IsOneOf}
use k8s_jumperless.Local.Nets.Uncover.{
  named_colors-IsLower, All-IsOneOf, find_marker_plain, from_color-IsLower, from_color-IsTrimmed,
  uncover, decorate-IsTrimmed, decorate-ne-nil, IsLower, from_color,
}
use k8s_jumperless.Local.Nets.{
  named_colors, find_marker, parse_color_part, parse_colored, parse_net_line,
}
use k8s_jumperless.Strings.Space.Laws.{IsTrimmed, IsBlank, trim_space_pad}
use k8s_jumperless.Strings.Split.Laws.{Lacks}
use k8s_jumperless.Strings.Split.{join}

-- The parts of a line behind its name.
pub record ColorRest : Type 0 where
  pub decoration : Decoration
  pub color : Bytes
  pub color_pad : Bytes
  pub marker : Option (ℕ × Bytes)
  pub node : Bytes
  pub nodes : List Bytes
  pub rest : Tail

abbrev nodes_text : ColorRest → Bytes
nodes_text r = join (r.node ∷ r.nodes) (codes ",")

abbrev pub color_rest : ColorRest → Bytes
color_rest r =
    decorate r.decoration
      (from_color r.color r.color_pad (marked r.marker (with_tail (nodes_text r) r.rest)))

pub record IsColorRest (r : ColorRest) : Type 0 where
  pub decoration : IsDecoration r.decoration
  pub color : IsOneOf r.color named_colors
  pub color_pad_ne_nil : r.color_pad ≢ []
  pub color_pad : All IsBlank r.color_pad
  pub marker : IsMarker r.marker
  pub nodes : All IsNode (r.node ∷ r.nodes)
  pub first_plain : IsPlainNode r.node
  pub nodes_no_tab : All (Lacks b'\t') r.nodes
  pub rest : IsTail r.rest

find_marker-with_tail :
    (node : Bytes) (nodes : List Bytes) (tl : Tail)
    → IsPlainNode node
    → find_marker (with_tail (join (node ∷ nodes) (codes ",")) tl) ≡ []
unfolding with_tail join
find_marker-with_tail [] nodes tl h = absurd h
find_marker-with_tail (c ∷ s) [] no_tail h = find_marker_plain c _ h.0
find_marker-with_tail (c ∷ s) (q ∷ nodes) no_tail h = find_marker_plain c _ h.0
find_marker-with_tail (c ∷ s) [] (tail before after text) h = find_marker_plain c _ h.0
find_marker-with_tail (c ∷ s) (q ∷ nodes) (tail before after text) h = find_marker_plain c _ h.0

module _ (r : ColorRest) (w : IsColorRest r) where
  text_IsTrimmed : IsTrimmed (nodes_text r)
  text_IsTrimmed = join-IsTrimmed r.node r.nodes w.nodes

  text_ne_nil : nodes_text r ≢ []
  text_ne_nil = join-ne-nil r.node r.nodes w.nodes.0.ne_nil

  text_Lacks : Lacks b'\t' (nodes_text r)
  text_Lacks = join-Lacks (r.node ∷ r.nodes) (go r.node w.first_plain, w.nodes_no_tab)
    where
      go : (node : Bytes) → IsPlainNode node → Lacks b'\t' node
      go [] h = absurd h
      go (c ∷ s) h = h.1

  body_IsTrimmed : IsTrimmed (with_tail (nodes_text r) r.rest)
  body_IsTrimmed = with_tail-IsTrimmed (nodes_text r) text_IsTrimmed text_ne_nil r.rest w.rest

  body_ne_nil : with_tail (nodes_text r) r.rest ≢ []
  body_ne_nil = with_tail-ne-nil (nodes_text r) text_IsTrimmed text_ne_nil r.rest

  inner : Bytes
  inner = marked r.marker (with_tail (nodes_text r) r.rest)

  inner-IsTrimmed : IsTrimmed inner
  unfolding inner
  inner-IsTrimmed = marked-IsTrimmed _ body_IsTrimmed body_ne_nil r.marker w.marker

  inner_ne_nil : inner ≢ []
  unfolding inner
  inner_ne_nil = marked-ne-nil _ body_IsTrimmed body_ne_nil r.marker

  color-IsLower : IsLower r.color
  color-IsLower = All-IsOneOf w.color named_colors-IsLower

  colored_IsTrimmed : IsTrimmed (from_color r.color r.color_pad inner)
  colored_IsTrimmed =
      from_color-IsTrimmed r.color r.color_pad inner color-IsLower w.color_pad_ne_nil w.color_pad
        inner-IsTrimmed inner_ne_nil

  colored-IsLower : IsLower (from_color r.color r.color_pad inner)
  colored-IsLower =
      from_color-IsLower r.color r.color_pad inner color-IsLower w.color_pad_ne_nil w.color_pad
        inner-IsTrimmed inner_ne_nil

  color_rest-IsTrimmed : IsTrimmed (color_rest r)
  unfolding inner
  color_rest-IsTrimmed =
      decorate-IsTrimmed _ colored_IsTrimmed colored-IsLower r.decoration w.decoration

  color_rest_ne_nil : color_rest r ≢ []
  unfolding inner
  color_rest_ne_nil = decorate-ne-nil _ colored_IsTrimmed colored-IsLower r.decoration

  abbrev printed_net : ℕ → Bytes → Net
  printed_net index name = record {
    index = pos index;
    name = name;
    voltage = none;
    color = some r.color;
    extra = tail_text r.rest;
    nodes = r.node ∷ r.nodes;
  }

  parse_colored_printed :
      (index : ℕ) (name : Bytes)
      → parse_colored (pos index) name (r.color, inner) ≡ printed_net index name
  unfolding parse_colored inner
  parse_colored_printed index name =
      let c = cut-with_tail (nodes_text r) text_IsTrimmed text_ne_nil r.rest w.rest text_Lacks in
      rw
        (drop_marker-marked _ body_IsTrimmed body_ne_nil r.marker w.marker
          (find_marker-with_tail r.node r.nodes r.rest w.first_plain))
        (rw (c.0, c.1, parse_nodes-join r.node r.nodes w.nodes))

  parse_color_part_printed :
      (index : ℕ) (name : Bytes)
      → parse_color_part (pos index) name (color_rest r) ≡ ok (printed_net index name)
  unfolding parse_color_part inner
  parse_color_part_printed index name =
      rw
        (
          uncover _ colored_IsTrimmed colored-IsLower r.decoration w.decoration,
          find_color_named w.color (r.color_pad ++ inner),
          trim_space_pad r.color_pad inner w.color_pad inner-IsTrimmed inner_ne_nil,
        )
        (ap ok (parse_colored_printed index name))

  -- A printed line of the table with colors is read back: the index, the name, the color, the
  -- nodes in order, and the text behind the tab if there is one. Backspaces, a `*`, and a marker
  -- such as `- f` before the nodes leave no trace. The index is above the current one and fits an
  -- `int32`; the name is trimmed, not empty and without a tab; the color is a named one with blanks
  -- behind it; the nodes are trimmed, not empty, without commas and tabs, and the first does not
  -- begin with a dash; the text behind the tab is trimmed and not empty.
  pub parse_net_line-color :
      (index : ℕ) (name_pad name rest_pad : Bytes) (current : ℤ)
      → IsHeading current index name_pad name rest_pad
      → parse_net_line (net_line index name_pad name rest_pad (color_rest r)) true current
        ≡ ok (record {
          index = pos index;
          name = name;
          voltage = none;
          color = some r.color;
          extra = tail_text r.rest;
          nodes = r.node ∷ r.nodes;
        })
  parse_net_line-color index name_pad name rest_pad current h =
      parse_net_line_fields index name_pad name rest_pad (color_rest r) true current h
        color_rest-IsTrimmed color_rest_ne_nil
      ∙ parse_color_part_printed index name
