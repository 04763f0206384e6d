-- ===== src/Emulator/Command/Resources.antt =====
-- The emulator command releases what it acquires.
use k8s_jumperless.Base.Calls.{Call, Tidy}
use k8s_jumperless.Base.{none, some, List, ◌≡◌, ◌≢◌, refl}
use k8s_jumperless.Emulator.Command.{Service, on_start, run_emulator}
use k8s_jumperless.Emulator.Config.{emulator_config_of}
use k8s_jumperless.Emulator.Lifecycle.Tidy.{failed_start-Tidy, stop-Tidy}
use k8s_jumperless.Emulator.Lifecycle.{Started, new_emulator, nonblock_failed, start}
use k8s_jumperless.Emulator.Mappings.{EmulatorConfig}
use k8s_jumperless.Host.Logged.{IsLogged}
use k8s_jumperless.Host.{Host}
use k8s_jumperless.Viper.{Viper}

-- The goroutine opens, closes and links nothing.
pub record IsQuiet {W R : Type 0} (service : Service W) (log : W → List (Call R)) : Type 0 where
  pub log_done : (w : W) → log (service.until_done w) ≡ log w
  pub log_ended : (w : W) → log (service.until_ended w) ≡ log w

module _ {W R : Type 0} (host : Host W) (service : Service W) (log : W → List (Call R))
    (laws : IsLogged host log) (quiet : IsQuiet service log) where
  on_start-Tidy :
      (config : EmulatorConfig) (w : W) (r : Started host config)
      → start host config (new_emulator host config) w ≡ r
      → (on_start host service config r).0 ≢ some nonblock_failed
      → Tidy log w (on_start host service config r).1
  on_start-Tidy config w (some error, e, w1) result ne =
      failed_start-Tidy host config log laws w w1 error e (λ same. ne (rw same refl)) result
  on_start-Tidy config w (none, e, w1) result ne =
      stop-Tidy host config log laws w w1 (service.until_done w1) e service.until_ended result
        (quiet.log_done w1) quiet.log_ended

  -- Unless the pseudo terminal cannot be made non-blocking, the emulator command closes both
  -- terminals that it opens and removes the link that it makes, whether it fails or ends with its
  -- context. The goroutine opens, closes and links nothing.
  pub run_emulator-Tidy :
      (v : Viper) (w : W)
      → (run_emulator host service v w).0 ≢ some nonblock_failed
      → Tidy log w (run_emulator host service v w).1
  unfolding run_emulator
  run_emulator-Tidy v w ne = on_start-Tidy (emulator_config_of v) w _ refl ne
