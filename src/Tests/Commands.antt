-- ===== src/Tests/Commands.antt =====
-- Runs of the program that show or use its settings.
use k8s_jumperless.Base.{true, false, none, some, [], ◌≡◌, ◌↔◌, refl, Bytes, codes}
use k8s_jumperless.Command.Status.{on_pre_run, Succeeds, execute-status}
use k8s_jumperless.Command.{Cobra, Flags, Settings, execute, exit_status, load_config}
use k8s_jumperless.Viper.{not_found}

-- The world is the file that was set. Nothing is found, and writing to the output fails.
abbrev settings : Settings Bytes
settings = record {
  set_config_file = λ file w. file;
  add_config_path = λ path w. w;
  set_config_name = λ name w. name;
  set_config_type = λ type w. w;
  read_in_config = λ w. (not_found, w);
  write_config_to_stdout = λ w. (false, w);
  safe_write_config = λ w. (true, w);
  write_config_as = λ file w. (true, w);
}

abbrev flags : Flags
flags = record { config_file = some (codes "a.yml"); show = some false; generate = some true }

abbrev running : Cobra Bytes
running = record { execute_context = λ pre command w. on_pre_run command (pre w) }

loads : load_config settings (codes "a.yml") [] ≡ (none, codes "a.yml")
unfolding load_config
loads = refl

execute-status_example :
    (exit_status (execute settings running flags (λ w. (false, w)) []).0 ≡ 0)
    ↔ Succeeds settings (codes "a.yml") (λ w. (false, w)) (codes "a.yml") (some false) (some true)
execute-status_example =
    execute-status settings running (record { runs = λ pre command w. refl }) flags (codes "a.yml")
      (λ w. (false, w)) [] (codes "a.yml") refl loads
