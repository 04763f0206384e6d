-- ===== src/Tests/Settings.antt =====
-- A configuration as a device prints it, and the status that it is merged into.
use mathlib.Core.Option.{or_else}
use k8s_jumperless.Api.Config.Entries.{UniqueKeys, entry_value}
use k8s_jumperless.Api.Config.Repeat.{upsert_config_twice}
use k8s_jumperless.Api.Config.SetEntry.{config_value-set_config_entry, set_config_entry_lost}
use k8s_jumperless.Api.Config.Upsert.{
  IsConfigMap, config_value, config_value-upsert_config, has_section, upsert_config-IsConfigMap,
}
use k8s_jumperless.Api.Config.{entry, set_config_entry, upsert_config}
use k8s_jumperless.Api.Types.{JumperlessConfigSection, JumperlessStatus}
use k8s_jumperless.Base.{
  ◌&&◌, ◌≡◌, ◌∷◌, [], All, Bytes, List, codes, none, some, true, false, refl, arith, inl,
  if◌then◌else◌, str_eq,
}
use k8s_jumperless.Local.Config.Order.{parse_config-IsConfigMap}
use k8s_jumperless.Local.Config.Settings.{
  IsSetting, Setting, last_setting, parse_config-settings_text, settings_text,
}
use k8s_jumperless.Local.Config.{parse_config}
use k8s_jumperless.Strings.Space.{
  ascii_space, last_space_width, space_width, three_byte_space, two_byte_space,
}
use k8s_jumperless.Tests.Examples.{in_order, in_order-IsOrdering}

abbrev rail : Setting
rail = record { section = codes "dacs"; key = codes "top_rail"; value = codes "3.50" }

abbrev cold_rail : Setting
cold_rail = record { section = codes "dacs"; key = codes "top_rail"; value = codes "0.00" }

rails : All IsSetting (rail ∷ cold_rail ∷ [])
unfolding space_width last_space_width ascii_space two_byte_space three_byte_space
rails = (
  record {
    section_no_end = omega arith;
    key_trimmed = record { no_first = refl; no_last = refl };
    key_ne_nil = λ e. cc;
    key_no_assignment = omega arith;
    value_trimmed = record { no_first = refl; no_last = refl };
    one_line = omega arith;
  },
  (
    record {
      section_no_end = omega arith;
      key_trimmed = record { no_first = refl; no_last = refl };
      key_ne_nil = λ e. cc;
      key_no_assignment = omega arith;
      value_trimmed = record { no_first = refl; no_last = refl };
      one_line = omega arith;
    },
    tt,
  ),
)

abbrev rails_text : Bytes
rails_text = settings_text rail (cold_rail ∷ [])

-- The later line wins.
last_rail :
    last_setting (codes "dacs") (codes "top_rail") (rail ∷ cold_rail ∷ []) ≡ some (codes "0.00")
unfolding last_setting or_else str_eq
last_rail = refl

parse_config-settings_text_example :
    (config_value (codes "dacs") (codes "top_rail") (parse_config in_order rails_text).0
      ≡ last_setting (codes "dacs") (codes "top_rail") (rail ∷ cold_rail ∷ []))
    × ((parse_config in_order rails_text).1 ≡ [])
parse_config-settings_text_example =
    parse_config-settings_text in_order in_order-IsOrdering rail (cold_rail ∷ []) (codes "dacs")
      (codes "top_rail") rails

parse_config-IsConfigMap_example : IsConfigMap (parse_config in_order rails_text).0
parse_config-IsConfigMap_example = parse_config-IsConfigMap in_order in_order-IsOrdering rails_text

abbrev old_config : List JumperlessConfigSection
old_config =
    record { name = codes "dacs"; entries = entry (codes "top_rail") (codes "1.00") ∷ [] } ∷ []

abbrev new_config : List JumperlessConfigSection
new_config =
    record {
      name = codes "dacs";
      entries = entry (codes "top_rail") (codes "3.50") ∷ entry (codes "dac_0") (codes "2.00") ∷ [];
    }
    ∷ record { name = codes "debug"; entries = [] }
    ∷ []

abbrev status : JumperlessStatus Unit
status = record {
  firmware_version = none;
  local_port = none;
  dacs = [];
  nets = [];
  config = old_config;
  conditions = tt;
}

old_config-IsConfigMap : IsConfigMap old_config
unfolding has_section entry_value str_eq
old_config-IsConfigMap = ((refl, tt), refl, tt)

new_config-IsConfigMap : IsConfigMap new_config
unfolding has_section entry_value str_eq
new_config-IsConfigMap = ((refl, (refl, tt)), refl, (tt, refl, tt))

new_config-UniqueKeys : All (λ s. UniqueKeys s.entries) new_config
unfolding entry_value str_eq
new_config-UniqueKeys = ((refl, (refl, tt)), (tt, tt))

config_value-upsert_config_example :
    config_value (codes "dacs") (codes "dac_0") (upsert_config status new_config).config
    ≡ or_else
        (config_value (codes "dacs") (codes "dac_0") new_config)
        (config_value (codes "dacs") (codes "dac_0") old_config)
config_value-upsert_config_example =
    config_value-upsert_config (codes "dacs") (codes "dac_0") status new_config
      new_config-IsConfigMap

upsert_config_twice_example :
    upsert_config (upsert_config status new_config) new_config ≡ upsert_config status new_config
upsert_config_twice_example = upsert_config_twice status new_config new_config-IsConfigMap

upsert_config-IsConfigMap_example : IsConfigMap (upsert_config status new_config).config
upsert_config-IsConfigMap_example =
    upsert_config-IsConfigMap status new_config new_config-UniqueKeys old_config-IsConfigMap

dacs_there : has_section (codes "dacs") old_config ≡ true
unfolding has_section str_eq
dacs_there = refl

dac_missing : config_value (codes "dacs") (codes "dac_0") old_config ≡ none
unfolding config_value str_eq
dac_missing = refl

debug_missing : has_section (codes "debug") old_config ≡ false
unfolding has_section str_eq
debug_missing = refl

set_config_entry_lost_example :
    set_config_entry status (codes "dacs") (codes "dac_0") (codes "2.00") ≡ status
set_config_entry_lost_example =
    set_config_entry_lost status (codes "dacs") (codes "dac_0") (codes "2.00") dacs_there
      dac_missing

config_value-set_config_entry_example :
    config_value
      (codes "debug")
      (codes "level")
      (set_config_entry status (codes "debug") (codes "level") (codes "2")).config
    ≡ (if str_eq (codes "debug") (codes "debug") && str_eq (codes "level") (codes "level")
        then some (codes "2")
        else config_value (codes "debug") (codes "level") old_config)
config_value-set_config_entry_example =
    config_value-set_config_entry status (codes "debug") (codes "level") (codes "2") (codes "debug")
      (codes "level") (inl debug_missing)
