-- ===== src/Proxy/Command.antt =====
-- The proxy command of utils/cmd/proxy/proxy.go, with its `runProxy`.
pub mod Replayed
pub mod Saved
use k8s_jumperless.Base.{ℕ, Option, none, some, Bytes, codes, Result, ok, err}
use k8s_jumperless.Device.Board.{Tools}
use k8s_jumperless.Device.Port.{Serial}
use k8s_jumperless.Emulator.Config.{emulator_config_of}
use k8s_jumperless.Emulator.Mappings.{Mappings}
use k8s_jumperless.Host.{Host}
use k8s_jumperless.Proxy.Config.{proxy_config_of}
use k8s_jumperless.Proxy.Quoting.{Quoting}
use k8s_jumperless.Proxy.Run.{RunError, Session, run_proxy}
use k8s_jumperless.Proxy.Save.{SaveError, find_config_file, save_recording}
use k8s_jumperless.Viper.{ConfigFiles, Viper}

pub data ProxyCommandError : Type 0 where
  no_config_file : ProxyCommandError
  not_run : RunError → ProxyCommandError
  not_saved : SaveError → ProxyCommandError

module _ (serial : Serial) (host : Host serial.World) (tools : Tools serial) (q : Quoting)
    (session : Session host serial.Handle) (fuel : ℕ) (files : ConfigFiles serial.World)
    (v : Viper) where
  -- The error, if any, and the world behind it, or `none` if the command never returns.
  abbrev pub Outcome : Type 0
  Outcome = Option (Option ProxyCommandError × serial.World)

  abbrev pub on_save : Option SaveError × serial.World → Outcome
  on_save (none, w) = some (none, w)
  on_save (some e, w) = some (some (not_saved e), w)

  abbrev pub on_run : Bytes → Option (Result RunError Mappings × serial.World) → Outcome
  on_run file none = none
  on_run file (some (err e, w)) = some (some (not_run e), w)
  on_run file (some (ok recording, w)) =
      on_save (save_recording files (proxy_config_of v) (emulator_config_of v) file recording w)

  abbrev pub on_config_file : Option Bytes → serial.World → Outcome
  on_config_file none w = some (some no_config_file, w)
  on_config_file (some file) w =
      on_run file (run_proxy serial host tools q session fuel (proxy_config_of v) w)

  -- `RunE`, with the file that the root command has read and the value of the flag.
  unfoldable pub proxy_command : Bytes → Option Bytes → serial.World → Outcome
  unfolding find_config_file run_proxy save_recording
  proxy_command used flag w =
      on_config_file (find_config_file used flag (codes "jumperless-utils.yml")) w
