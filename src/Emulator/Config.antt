-- ===== src/Emulator/Config.antt =====
-- `NewFromViper` of utils/internal/emulator/config/config.go.
use k8s_jumperless.Base.{Option, none, some, [], if◌then◌else◌, codes, pos}
use k8s_jumperless.Emulator.Mappings.{EmulatorConfig, Mappings}
use k8s_jumperless.Viper.{Viper}

-- `NewDefaultConfig`
abbrev pub default_emulator_config : EmulatorConfig
default_emulator_config = record { buffer_size = pos 1024; virtual_port = []; mappings = [] }

-- `if err := v.UnmarshalKey(...); err != nil`
abbrev pub mappings_or_none : Option Mappings → Mappings
mappings_or_none (some ms) = ms
mappings_or_none none = []

-- `NewFromViper`
unfoldable pub emulator_config_of : Viper → EmulatorConfig
emulator_config_of v = record {
  buffer_size =
      if v.is_set (codes "emulator.buffer-size")
      then v.get_int (codes "emulator.buffer-size")
      else default_emulator_config.buffer_size;
  virtual_port =
      if v.is_set (codes "emulator.virtual-port")
      then v.get_string (codes "emulator.virtual-port")
      else default_emulator_config.virtual_port;
  mappings =
      if v.is_set (codes "emulator.mappings")
      then mappings_or_none (v.unmarshal_mappings (codes "emulator.mappings"))
      else default_emulator_config.mappings;
}
