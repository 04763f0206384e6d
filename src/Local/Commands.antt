-- ===== src/Local/Commands.antt =====
-- `GetDAC`, `GetNets` and `GetConfig` of internal/controller/local/local.go, and the names of the
-- DAC channels of api/v5alpha1.
use k8s_jumperless.Api.Types.{Net, JumperlessConfigSection}
use k8s_jumperless.Base.{
  ℕ, zero, suc, not, List, [], ◌∷◌, ◌++◌, if◌then◌else◌, Bytes, codes, ℤ, pos, Result, ok, err,
}
use k8s_jumperless.Device.Board.{Tools, Jumperless, ExecError, exec_python_command}
use k8s_jumperless.Device.Port.{Serial, PortError, Run, exec_raw_command}
use k8s_jumperless.Local.Config.{ConfigError, ConfigMap, parse_config}
use k8s_jumperless.Local.Nets.{NetError, parse_nets}
use k8s_jumperless.Strings.Affix.{has_suffix}
use k8s_jumperless.Strings.Number.{format_int}
use k8s_jumperless.Strings.Space.{trim_space}

-- `DACChannels`
abbrev pub dac_channels : List ℤ
dac_channels = pos 0 ∷ pos 1 ∷ pos 2 ∷ pos 3 ∷ []

-- `DACChannel.String`
unfoldable pub channel_name : ℤ → Bytes
unfolding format_int
channel_name (pos zero) = codes "DAC0"
channel_name (pos (suc zero)) = codes "DAC1"
channel_name (pos (suc (suc zero))) = codes "TOP_RAIL"
channel_name (pos (suc (suc (suc zero)))) = codes "BOTTOM_RAIL"
channel_name i = codes "DACChannel(" ++ (format_int i ++ codes ")")

pub data LocalError : Type 0 where
  python_failed : ExecError → LocalError
  raw_failed : PortError → LocalError
  bad_nets : List NetError → LocalError
  bad_config : List ConfigError → LocalError

-- The trimmed voltage, with a `V` behind it.
unfoldable pub voltage_of : Bytes → Bytes
unfolding trim_space has_suffix
voltage_of output =
    let result = trim_space output in
    if not (has_suffix result (codes "V")) then result ++ codes "V" else result

-- `NewAggregate` of no errors is nil.
abbrev pub nets_of : List Net × List NetError → Result LocalError (List Net)
nets_of (nets, []) = ok nets
nets_of (nets, e ∷ errs) = err (bad_nets (e ∷ errs))

abbrev pub config_of :
    List JumperlessConfigSection × List ConfigError
    → Result LocalError (List JumperlessConfigSection)
config_of (config, []) = ok config
config_of (config, e ∷ errs) = err (bad_config (e ∷ errs))

module _ (serial : Serial) (tools : Tools serial) (order : ConfigMap → List JumperlessConfigSection)
    (fuel : ℕ) where
  abbrev pub Outcome : Type 0 → Type 0
  Outcome A = Result LocalError A × serial.World

  abbrev pub dac_read : Result ExecError Bytes × serial.World → Outcome Bytes
  dac_read (err e, w) = (err (python_failed e), w)
  dac_read (ok output, w) = (ok (voltage_of output), w)

  -- `GetDAC`
  unfoldable pub get_dac : Jumperless serial → ℤ → serial.World → Outcome Bytes
  unfolding exec_python_command format_int voltage_of
  get_dac j channel w = dac_read (
      exec_python_command serial tools fuel j
        (codes "dac_get(" ++ (format_int channel ++ codes ")")) (pos 10000000) w)

  abbrev pub nets_read : Result ExecError Bytes × serial.World → Outcome (List Net)
  nets_read (err e, w) = (err (python_failed e), w)
  nets_read (ok output, w) = (nets_of (parse_nets output), w)

  -- `GetNets`
  unfoldable pub get_nets : Jumperless serial → serial.World → Outcome (List Net)
  unfolding exec_python_command parse_nets
  get_nets j w =
      nets_read (exec_python_command serial tools fuel j (codes "print_nets()") (pos 10000000) w)

  abbrev pub config_read : Run serial Bytes → Outcome (List JumperlessConfigSection)
  config_read (err e, w) = (err (raw_failed e), w)
  config_read (ok output, w) = (config_of (parse_config order output), w)

  -- `GetConfig`
  unfoldable pub get_config :
      Jumperless serial → serial.World → Outcome (List JumperlessConfigSection)
  unfolding exec_raw_command parse_config
  get_config j w = config_read (exec_raw_command serial fuel j (codes "~") (pos 500000000) w)
