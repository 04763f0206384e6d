-- ===== src/Generator/Command.antt =====
-- `runGenerator` of utils/cmd/generator/generator.go.
use k8s_jumperless.Base.Calls.{Call, Tidy}
use k8s_jumperless.Base.{ℕ, List, ◌≡◌}
use k8s_jumperless.Device.Board.{Tools}
use k8s_jumperless.Device.Port.Tidy.{IsLogged}
use k8s_jumperless.Device.Port.{Serial}
use k8s_jumperless.Generator.Config.{generator_config_of}
use k8s_jumperless.Generator.Run.Resources.{run_generator-Tidy}
use k8s_jumperless.Generator.Run.{Outcome, run_generator}
use k8s_jumperless.Viper.{Viper}

module _ (serial : Serial) (meanwhile : serial.Handle → serial.World → serial.World)
    (tools : Tools serial) (fuel : ℕ) where
  -- `runGenerator`, with the settings of the program.
  unfoldable pub generator_command : Viper → serial.World → Outcome serial meanwhile
  unfolding run_generator generator_config_of
  generator_command v w = run_generator serial meanwhile tools fuel (generator_config_of v) w

  -- Whatever the settings and whatever fails, the command closes each port that it opens. Neither
  -- the goroutine nor listing the ports leaves a port open.
  generator_command-Tidy :
      {R : Type 0} (log : serial.World → List (Call R))
      → IsLogged serial log
      → ((h : serial.Handle) (w : serial.World) → Tidy log w (meanwhile h w))
      → ((w : serial.World) → log (tools.port_names w).1 ≡ log w)
      → (v : Viper) (w : serial.World) → Tidy log w (generator_command v w).1
  unfolding generator_command
  generator_command-Tidy log laws quiet log_names v w =
      run_generator-Tidy serial log laws meanwhile quiet tools log_names fuel
        (generator_config_of v) w
