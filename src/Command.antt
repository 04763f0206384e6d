-- ===== src/Command.antt =====
-- The root command of utils/cmd/root.go and the exit status of utils/cmd/main.go. What is only
-- logged, the verbose settings among it, is left out.
pub mod Status
use k8s_jumperless.Base.{ℕ, Bool, true, false, Option, none, some, [], ◌∷◌, Bytes, codes}
use k8s_jumperless.Viper.{Reading, not_found, read_in, unreadable}

-- `show_config` and `generate_config` are `ErrShowConfig` and `ErrGenerateConfig`.
pub data CommandError : Type 0 where
  flag_failed load_failed show_failed generate_failed run_failed : CommandError
  show_requested generate_requested : CommandError

-- The values of the flags, `none` for an error.
pub record Flags : Type 0 where
  pub config_file : Option Bytes
  pub show : Option Bool
  pub generate : Option Bool

-- What the root command does with its instance of github.com/spf13/viper, whose state is in the
-- world. A `Bool` is true when there is no error.
pub record Settings (W : Type 0) : Type 0 where
  pub set_config_file : Bytes → W → W
  pub add_config_path : Bytes → W → W
  pub set_config_name : Bytes → W → W
  pub set_config_type : Bytes → W → W
  pub read_in_config : W → Reading Unit × W
  pub write_config_to_stdout : W → Bool × W
  pub safe_write_config : W → Bool × W
  pub write_config_as : Bytes → W → Bool × W

-- `ExecuteContext` of a command of github.com/spf13/cobra, from its `PersistentPreRunE` and its own
-- function, whose `Bool` is true when there is no error; `run_failed` is an error of the latter.
pub record Cobra (W : Type 0) : Type 0 where
  pub execute_context : (W → Option CommandError × W) → (W → Bool × W) → W → Option CommandError × W

module _ {W : Type 0} (settings : Settings W) where
  -- The error, if any, and the world behind it.
  abbrev pub Outcome : Type 0
  Outcome = Option CommandError × W

  abbrev pub loaded : Reading Unit × W → Outcome
  loaded (read_in tt, w) = (none, w)
  loaded (not_found, w) = (none, w)
  loaded (unreadable, w) = (some load_failed, w)

  -- `loadConfig`. The directory, the name and the extension are those of `defaultConfigFile`,
  -- jumperless-utils.yml.
  unfoldable pub load_config : Bytes → W → Outcome
  load_config (c ∷ file) w =
      loaded (settings.read_in_config (settings.set_config_file (c ∷ file) w))
  load_config [] w =
      let w1 = settings.add_config_path (codes ".") w in
      let w2 = settings.set_config_name (codes "jumperless-utils") w1 in
      loaded (settings.read_in_config (settings.set_config_type (codes "yml") w2))

  -- An error, or the request that ends the command.
  abbrev pub ended_by : CommandError → CommandError → Bool × W → Outcome
  ended_by failure request (true, w) = (some request, w)
  ended_by failure request (false, w) = (some failure, w)

  -- `showConfig`
  unfoldable pub show_config : W → Outcome
  show_config w = ended_by show_failed show_requested (settings.write_config_to_stdout w)

  -- `generateConfig`, which returns `ErrShowConfig`.
  unfoldable pub generate_config : Bytes → W → Outcome
  generate_config [] w = ended_by generate_failed show_requested (settings.safe_write_config w)
  generate_config (c ∷ file) w =
      ended_by generate_failed show_requested (settings.write_config_as (c ∷ file) w)

  -- The `switch` on the flags of `PersistentPreRunE`.
  abbrev pub on_flags : Bytes → Option Bool → Option Bool → W → Outcome
  on_flags file none generate w = (some flag_failed, w)
  on_flags file (some show) none w = (some flag_failed, w)
  on_flags file (some true) (some generate) w = show_config w
  on_flags file (some false) (some true) w = generate_config file w
  on_flags file (some false) (some false) w = (none, w)

  abbrev pub on_load : Bytes → Flags → Outcome → Outcome
  on_load file flags (some e, w) = (some e, w)
  on_load file flags (none, w) = on_flags file flags.show flags.generate w

  -- `PersistentPreRunE`
  unfoldable pub pre_run : Flags → W → Outcome
  unfolding load_config show_config generate_config
  pre_run flags w = elim flags.config_file [
    | none ↦ (some flag_failed, w)
    | some file ↦ on_load file flags (load_config file w)
  ]

  -- `execute` of a command, which is run as `PersistentPreRunE` and the command's own function.
  unfoldable pub execute : Cobra W → Flags → (W → Bool × W) → W → Outcome
  unfolding pre_run
  execute cobra flags command w = cobra.execute_context (pre_run flags) command w

-- The status with which `main` exits.
unfoldable pub exit_status : Option CommandError → ℕ
exit_status none = 0
exit_status (some show_requested) = 0
exit_status (some generate_requested) = 0
exit_status (some flag_failed) = 1
exit_status (some load_failed) = 1
exit_status (some show_failed) = 1
exit_status (some generate_failed) = 1
exit_status (some run_failed) = 1
