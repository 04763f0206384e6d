-- ===== src/Tests/LocalNets.antt =====
-- The tables of nets of internal/controller/local/local.go's comments.
use k8s_jumperless.Api.Types.{Net}
use k8s_jumperless.Base.{
  none, some, [], ◌∷◌, ◌++◌, ◌≡◌, refl, Bytes, codes, pos, ok, err, true, false,
}
use k8s_jumperless.Local.Nets.{
  backspace, parse_net_line, parse_nets, no_color, too_few_fields, duplicate_index,
}

abbrev gpio_line : Bytes
gpio_line =
    codes "12\t Net 12\t\t "
    ++ (backspace ∷ backspace ∷ codes "* red    - f  GP_1,25   \t    input - floating")

abbrev gpio_net : Net
gpio_net = record {
  index = pos 12;
  name = codes "Net 12";
  voltage = none;
  color = some (codes "red");
  extra = some (codes "input - floating");
  nodes = codes "GP_1" ∷ codes "25" ∷ [];
}

parse_gpio_line : parse_net_line gpio_line true (pos 0) ≡ ok gpio_net
unfolding parse_net_line
parse_gpio_line = refl

abbrev gnd_net : Net
gnd_net = record {
  index = pos 1;
  name = codes "GND";
  voltage = some (codes "0V");
  color = none;
  extra = none;
  nodes = codes "GND" ∷ codes "9" ∷ [];
}

parse_table :
    parse_nets (codes "Index\tName\t\tVoltage\t    Nodes\t\n\r1\t GND\t\t 0 V         GND,9\nbad\n")
    ≡ (gnd_net ∷ [], too_few_fields ∷ [])
unfolding parse_nets
parse_table = refl

parse_errors :
    (parse_net_line (codes "0\t a\t b") false (pos 0) ≡ err duplicate_index)
    × (parse_net_line (codes "1\t a\t teal  b") true (pos 0) ≡ err no_color)
unfolding parse_net_line
parse_errors = (refl, refl)
