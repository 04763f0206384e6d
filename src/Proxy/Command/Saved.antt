-- ===== src/Proxy/Command/Saved.antt =====
-- What the proxy command leaves in the configuration file.
use k8s_jumperless.Base.{
  ℕ, Bool, true, false, Option, none, some, List, [], ◌∷◌, ◌++◌, ◌≡◌, ◌≢◌, refl, sym, ap, ◌∙◌,
  if◌then◌else◌, Bytes, codes, Result, ok, err,
}
use k8s_jumperless.Device.Board.{Tools}
use k8s_jumperless.Device.Port.{Serial}
use k8s_jumperless.Emulator.Config.{emulator_config_of}
use k8s_jumperless.Emulator.Mappings.Laws.{responses_of}
use k8s_jumperless.Emulator.Mappings.{EmulatorConfig, Mappings}
use k8s_jumperless.Host.{Host}
use k8s_jumperless.Proxy.Command.{on_config_file, on_run, on_save, proxy_command}
use k8s_jumperless.Proxy.Config.{ProxyConfig, proxy_config_of}
use k8s_jumperless.Proxy.Quoting.{Quoting}
use k8s_jumperless.Proxy.Recorder.Exchanges.{answers}
use k8s_jumperless.Proxy.Recorder.{Event, run}
use k8s_jumperless.Proxy.Run.Recorded.{IsHeard, IsRecorded, run_proxy-IsRecorded}
use k8s_jumperless.Proxy.Run.{RunError, Session}
use k8s_jumperless.Proxy.Save.Found.{IsConfigFile, find_config_file-IsConfigFile}
use k8s_jumperless.Proxy.Save.Merged.{merged-answers, stored-save_recording}
use k8s_jumperless.Proxy.Save.{SaveError, merged, save_recording, with_settings, written}
use mathlib.Core.Option.{some-injective}
use k8s_jumperless.Viper.{ConfigFiles, Reading, Viper, not_found, read_in, unreadable}

-- Reading and writing a configuration file keeps what the recorder has received, and writing a file
-- without an error stores the mappings that were set in that file.
pub record IsStored {W : Type 0} (files : ConfigFiles W) (heard : W → List Event)
    (stored : Bytes → W → Mappings) : Type 0 where
  pub keeps_read : (file : Bytes) (w : W) → heard (files.read_in_config file w).1 ≡ heard w
  pub keeps_write :
      (settings : files.Settings) (file : Bytes) (w : W)
      → heard (files.write_config_as settings file w).1 ≡ heard w
  pub stores :
      (settings : files.Settings) (ms : Mappings) (file : Bytes) (w : W)
      → let r =
          files.write_config_as
            (files.set_mappings (codes "emulator.mappings") ms settings)
            file
            w in
        (r.0 ≡ true) → stored file r.1 ≡ ms

module _ {W : Type 0} (files : ConfigFiles W) (heard : W → List Event)
    (stored : Bytes → W → Mappings) (laws : IsStored files heard stored) where
  heard-written : (r : Bool × W) → heard (written files r).1 ≡ heard r.1
  heard-written (true, w) = refl
  heard-written (false, w) = refl

  heard-with_settings :
      (file : Bytes) (ms : Mappings) (r : Reading files.Settings × W)
      → heard (with_settings files file ms r).1 ≡ heard r.1
  heard-with_settings file ms (unreadable, w) = refl
  heard-with_settings file ms (not_found, w) = heard-written _ ∙ laws.keeps_write _ file w
  heard-with_settings file ms (read_in settings, w) = heard-written _ ∙ laws.keeps_write _ file w

  heard-save_recording :
      (config : ProxyConfig) (emulator : EmulatorConfig) (file : Bytes) (recording : Mappings)
      (w : W)
      → heard (save_recording files config emulator file recording w).1 ≡ heard w
  unfolding save_recording
  heard-save_recording config emulator file [] w = refl
  heard-save_recording config emulator file (r ∷ recording) w =
      heard-with_settings file _ (files.read_in_config file w) ∙ laws.keeps_read file w

module _ (serial : Serial) (host : Host serial.World) (tools : Tools serial) (q : Quoting)
    (session : Session host serial.Handle) (fuel : ℕ) (files : ConfigFiles serial.World) (v : Viper)
    (heard : serial.World → List Event) (stored : Bytes → serial.World → Mappings)
    (hearing : IsHeard serial host session heard) (laws : IsStored files heard stored) where
  on_save-none :
      (r : Option SaveError × serial.World) (w : serial.World)
      → on_save serial host tools q session fuel files v r ≡ some (none, w)
      → r ≡ (none, w)
  on_save-none (none, w1) w e = ap (λ x. (none, x.1)) (some-injective _ _ e)
  on_save-none (some error, w1) w e = absurd (let x = ap (λ y. y.0) (some-injective _ _ e) in cc)

  -- The mappings that the command stores in the file, for a world in which it ends.
  abbrev IsSaved : Bytes → serial.World → Type 0
  IsSaved file w =
      run q (heard w) ≢ []
      → stored file w ≡ merged (proxy_config_of v) (emulator_config_of v) (run q (heard w))

  on_run-IsSaved :
      (file : Bytes) (r : Option (Result RunError Mappings × serial.World)) (w : serial.World)
      → IsRecorded serial host tools q session fuel (proxy_config_of v) heard hearing r
      → on_run serial host tools q session fuel files v file r ≡ some (none, w)
      → IsSaved file w
  on_run-IsSaved file none w i e recorded = cc
  on_run-IsSaved file (some (err error, w1)) w i e recorded =
      absurd (let x = ap (λ y. y.0) (some-injective _ _ e) in cc)
  on_run-IsSaved file (some (ok recording, w1)) w i e recorded =
      let returned : save_recording files (proxy_config_of v) (emulator_config_of v) file recording
            w1
          ≡ (none, w) =
        on_save-none _ w e in
      let same : heard w ≡ heard w1 =
        ap (λ r. heard r.1) (sym returned)
        ∙ heard-save_recording files heard stored laws (proxy_config_of v) (emulator_config_of v)
            file recording w1 in
      let is_run : recording ≡ run q (heard w) = i ∙ ap (run q) (sym same) in
      stored-save_recording files stored laws.stores (proxy_config_of v) (emulator_config_of v) file
        (run q (heard w)) w1 w recorded
        (ap (λ ms. save_recording files (proxy_config_of v) (emulator_config_of v) file ms w1)
            (sym is_run)
          ∙ returned)

  -- The file has the merged mappings if the command returns no error and the recording is not empty.
  pub stored-proxy_command :
      (used : Bytes) (flag : Option Bytes) (file : Bytes) (w w' : serial.World)
      → IsConfigFile used flag file
      → proxy_command serial host tools q session fuel files v used flag w ≡ some (none, w')
      → run q (heard w') ≢ []
      → stored file w' ≡ merged (proxy_config_of v) (emulator_config_of v) (run q (heard w'))
  unfolding proxy_command
  stored-proxy_command used flag file w w' is_file e recorded =
      on_run-IsSaved file _ w'
        (run_proxy-IsRecorded serial host tools q session fuel (proxy_config_of v) heard hearing w)
        (ap (λ found. on_config_file serial host tools q session fuel files v found w)
            (sym (find_config_file-IsConfigFile used flag file is_file))
          ∙ e)
        recorded

  -- When the proxy command returns no error and what the recorder makes of the traffic is not empty,
  -- the mappings in the configuration file give each request that is not empty the responses that it
  -- had, if they are not to be overwritten, and behind them one response for each of its occurrences
  -- in the traffic, in order. The configuration file is the one that was used; without one, that of
  -- the flag; and if the flag is empty, `jumperless-utils.yml`. The traffic is what the recorder has
  -- received when the goroutines end, which no closing, removal or use of a file changes, and
  -- writing a file without an error stores the mappings that were set in that file.
  pub proxy_command-answers :
      (used wanted : Bytes) (flag : Option Bytes) (file : Bytes) (w w' : serial.World)
      → IsConfigFile used flag file
      → proxy_command serial host tools q session fuel files v used flag w ≡ some (none, w')
      → run q (heard w') ≢ []
      → wanted ≢ []
      → responses_of wanted (stored file w')
        ≡ (if (proxy_config_of v).overwrite
            then []
            else responses_of wanted (emulator_config_of v).mappings)
          ++ answers q wanted (heard w')
  proxy_command-answers used wanted flag file w w' is_file e recorded ne =
      ap (responses_of wanted) (stored-proxy_command used flag file w w' is_file e recorded)
      ∙ merged-answers q wanted (proxy_config_of v) (emulator_config_of v) (heard w') ne
