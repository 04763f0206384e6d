-- ===== src/Proxy/Save.antt =====
-- `saveRecording` and `findConfigFile` of utils/cmd/proxy/proxy.go.
pub mod Found
pub mod Merged
use k8s_jumperless.Base.{Bool, true, false, Option, none, some, List, [], ◌∷◌, Bytes, codes}
use k8s_jumperless.Emulator.Mappings.{
  EmulatorConfig, Mappings, RequestResponse, ResponseOption, add_response,
}
use k8s_jumperless.Proxy.Config.{ProxyConfig}
use k8s_jumperless.Viper.{ConfigFiles, Reading, not_found, read_in, unreadable}

-- The loop that adds each recorded mapping to the existing ones.
unfoldable pub add_all : Mappings → Mappings → Mappings
unfolding add_response
add_all mappings [] = mappings
add_all mappings (r ∷ recording) = add_all (add_response mappings r.request r.responses) recording

-- The `switch` on the existing mappings.
unfoldable pub merged : ProxyConfig → EmulatorConfig → Mappings → Mappings
unfolding add_all
merged config emulator recording = elim config.overwrite [
  | true ↦ recording
  | false ↦ elim emulator.mappings [ [] ↦ recording | m ∷ ms ↦ add_all (m ∷ ms) recording ]
]

pub data SaveError : Type 0 where
  not_read not_written : SaveError

-- `findConfigFile`, from `ConfigFileUsed` and from the flag, whose value is `none` for an error.
unfoldable pub find_config_file : Bytes → Option Bytes → Bytes → Option Bytes
find_config_file (c ∷ used) flag default_file = some (c ∷ used)
find_config_file [] none default_file = none
find_config_file [] (some []) default_file = some default_file
find_config_file [] (some (c ∷ file)) default_file = some (c ∷ file)

module _ {W : Type 0} (files : ConfigFiles W) where
  abbrev pub written : Bool × W → Option SaveError × W
  written (true, w) = (none, w)
  written (false, w) = (some not_written, w)

  -- `v.Set`, then `WriteConfigAs`.
  abbrev pub write_mappings : Bytes → Mappings → files.Settings → W → Option SaveError × W
  write_mappings file mappings settings w = written (
      files.write_config_as (files.set_mappings (codes "emulator.mappings") mappings settings) file
        w)

  abbrev pub with_settings : Bytes → Mappings → Reading files.Settings × W → Option SaveError × W
  with_settings file mappings (unreadable, w) = (some not_read, w)
  with_settings file mappings (not_found, w) = write_mappings file mappings files.no_settings w
  with_settings file mappings (read_in settings, w) = write_mappings file mappings settings w

  -- `saveRecording`: its error, if any.
  unfoldable pub save_recording :
      ProxyConfig → EmulatorConfig → Bytes → Mappings → W → Option SaveError × W
  unfolding merged
  save_recording config emulator file [] w = (none, w)
  save_recording config emulator file (r ∷ recording) w =
      with_settings file (merged config emulator (r ∷ recording)) (files.read_in_config file w)
