-- ===== src/Tests/NetLines.antt =====
-- Printed lines and tables of nets, as internal/controller/local/local.go's comments show them.
use k8s_jumperless.Api.Types.{Net}
use k8s_jumperless.Base.{
  ◌≡◌, ◌∷◌, ◌++◌, [], All, Bytes, codes, none, some, true, false, ok, pos, refl, arith, List,
}
use k8s_jumperless.Local.Nets.Colored.{starred, tail}
use k8s_jumperless.Local.Nets.ColorLine.{ColorRest, IsColorRest, color_rest, parse_net_line-color}
use k8s_jumperless.Local.Nets.Repeated.{parse_nets_repeated}
use k8s_jumperless.Local.Nets.Reported.{IsReported, parse_nets-IsReported}
use k8s_jumperless.Local.Nets.RoundTrip.{IsHeading, net_line, voltage_rest, parse_net_line-voltage}
use k8s_jumperless.Local.Nets.Sound.{IsNode, IsParsed, here, parse_net_line-IsParsed}
use k8s_jumperless.Local.Nets.{parse_net_line, parse_nets}
use k8s_jumperless.Strings.Affix.{has_prefix}
use k8s_jumperless.Strings.Space.Laws.{IsBlank, IsTrimmed}
use k8s_jumperless.Strings.Space.{
  ascii_space, last_space_width, space_width, three_byte_space, trim_space, two_byte_space,
}

abbrev blanks : Bytes
blanks = codes "  "

blanks-IsBlank : All IsBlank blanks
unfolding ascii_space
blanks-IsBlank = (refl, (refl, tt))

gnd-IsHeading : IsHeading (pos 0) 1 blanks (codes "GND") blanks
unfolding space_width last_space_width ascii_space two_byte_space three_byte_space
gnd-IsHeading = record {
  above = refl;
  in_range = omega arith;
  name_trimmed = record { no_first = refl; no_last = refl };
  name_ne_nil = λ e. cc;
  name_field = omega arith;
  name_pad_blank = blanks-IsBlank;
  rest_pad_blank = blanks-IsBlank;
}

abbrev gnd_nodes : List Bytes
gnd_nodes = codes "GND" ∷ codes "9" ∷ []

gnd_nodes-IsNode : All IsNode gnd_nodes
unfolding space_width last_space_width ascii_space two_byte_space three_byte_space
gnd_nodes-IsNode = (
  record {
    ne_nil = λ e. cc;
    trimmed = record { no_first = refl; no_last = refl };
    one_piece = omega arith;
  },
  (
    record {
      ne_nil = λ e. cc;
      trimmed = record { no_first = refl; no_last = refl };
      one_piece = omega arith;
    },
    tt,
  ),
)

zero_IsTrimmed : IsTrimmed (codes "0")
unfolding space_width last_space_width ascii_space two_byte_space three_byte_space
zero_IsTrimmed = record { no_first = refl; no_last = refl }

parse_net_line-voltage_example :
    parse_net_line
      (net_line 1 blanks (codes "GND") blanks (voltage_rest (codes "0") blanks gnd_nodes))
      false
      (pos 0)
    ≡ ok (record {
      index = pos 1;
      name = codes "GND";
      voltage = some (codes "0V");
      color = none;
      extra = none;
      nodes = gnd_nodes;
    })
parse_net_line-voltage_example =
    parse_net_line-voltage 1 blanks (codes "GND") blanks (codes "0") blanks (codes "GND")
      (codes "9" ∷ []) (pos 0) gnd-IsHeading zero_IsTrimmed (λ e. cc) (omega arith) (λ e. cc)
      blanks-IsBlank gnd_nodes-IsNode

abbrev gpio_rest : ColorRest
gpio_rest = record {
  decoration = starred 2 (codes " ");
  color = codes "red";
  color_pad = blanks;
  marker = some (b'f', blanks);
  node = codes "GND";
  nodes = codes "9" ∷ [];
  rest = tail blanks blanks (codes "floating");
}

gpio_rest-IsColorRest : IsColorRest gpio_rest
unfolding space_width last_space_width ascii_space two_byte_space three_byte_space
gpio_rest-IsColorRest = record {
  decoration = (λ e. cc, (refl, tt));
  color = here refl;
  color_pad_ne_nil = λ e. cc;
  color_pad = blanks-IsBlank;
  marker = (refl, λ e. cc, blanks-IsBlank);
  nodes = gnd_nodes-IsNode;
  first_plain = (omega arith, omega arith);
  nodes_no_tab = (omega arith, tt);
  rest = (
    blanks-IsBlank,
    omega arith,
    blanks-IsBlank,
    record { no_first = refl; no_last = refl },
    λ e. cc,
  );
}

parse_net_line-color_example :
    parse_net_line (net_line 1 blanks (codes "GND") blanks (color_rest gpio_rest)) true (pos 0)
    ≡ ok (record {
      index = pos 1;
      name = codes "GND";
      voltage = none;
      color = some (codes "red");
      extra = some (codes "floating");
      nodes = gnd_nodes;
    })
parse_net_line-color_example =
    parse_net_line-color gpio_rest gpio_rest-IsColorRest 1 blanks (codes "GND") blanks (pos 0)
      gnd-IsHeading

abbrev gnd_line : Bytes
gnd_line = codes "1\t GND\t\t 0 V         GND,9"

abbrev gnd_net : Net
gnd_net = record {
  index = pos 1;
  name = codes "GND";
  voltage = some (codes "0V");
  color = none;
  extra = none;
  nodes = gnd_nodes;
}

gnd_line-parses : parse_net_line gnd_line false (pos 0) ≡ ok gnd_net
unfolding parse_net_line
gnd_line-parses = refl

parse_net_line-IsParsed_example : IsParsed false (pos 0) gnd_net
parse_net_line-IsParsed_example =
    parse_net_line-IsParsed gnd_line false (pos 0) gnd_net gnd_line-parses

abbrev heading : Bytes
heading = codes "Index\tName\t\tVoltage\t    Nodes\t"

heading_starts : has_prefix (trim_space heading) (codes "Index") ≡ true
unfolding trim_space has_prefix
heading_starts = refl

parse_nets_repeated_example :
    let out = heading ++ b'\n' ∷ gnd_line in
    parse_nets (out ++ b'\n' ∷ out)
    ≡ ((parse_nets out).0 ++ (parse_nets out).0, (parse_nets out).1 ++ (parse_nets out).1)
parse_nets_repeated_example = parse_nets_repeated heading gnd_line (omega arith) heading_starts

parse_nets-IsReported_example : All IsReported (parse_nets (heading ++ b'\n' ∷ gnd_line)).0
parse_nets-IsReported_example = parse_nets-IsReported (heading ++ b'\n' ∷ gnd_line)
