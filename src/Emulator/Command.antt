-- ===== src/Emulator/Command.antt =====
-- `runEmulator` of utils/cmd/emulator/emulator.go.
pub mod Resources
use k8s_jumperless.Base.{Option, none, some}
use k8s_jumperless.Emulator.Config.{emulator_config_of}
use k8s_jumperless.Emulator.Lifecycle.{StartError, Started, new_emulator, start, stop}
use k8s_jumperless.Emulator.Mappings.{EmulatorConfig}
use k8s_jumperless.Host.{Host}
use k8s_jumperless.Viper.{Viper}

-- What the goroutine of the emulator does until the context is done, and from there until it ends.
pub record Service (W : Type 0) : Type 0 where
  pub until_done : W → W
  pub until_ended : W → W

module _ {W : Type 0} (host : Host W) (service : Service W) where
  -- The end of a start: the error, or the service and `Stop`.
  abbrev pub on_start : (config : EmulatorConfig) → Started host config → Option StartError × W
  on_start config (some error, e, w) = (some error, w)
  on_start config (none, e, w) =
      (none, stop host config e service.until_ended (service.until_done w))

  -- `runEmulator`: the error of `Start`, if any, and the world behind it.
  unfoldable pub run_emulator : Viper → W → Option StartError × W
  unfolding emulator_config_of start stop
  run_emulator v w =
      let config = emulator_config_of v in
      on_start config (start host config (new_emulator host config) w)
