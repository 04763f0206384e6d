-- ===== src/Command/Status.antt =====
-- When a run of the program succeeds.
use k8s_jumperless.Base.{
  ℕ, Bool, true, false, Option, none, some, [], ◌∷◌, ◌≡◌, ◌≢◌, ◌↔◌, refl, sym, ◌∙◌, Bytes, arith,
}
use k8s_jumperless.Command.{
  Cobra, CommandError, Flags, Settings, Outcome, ended_by, execute, exit_status, generate_config,
  generate_failed, generate_requested, load_config, loaded, on_flags, on_load, pre_run, run_failed,
  show_config, show_failed, show_requested,
}
use mathlib.Core.Option.{some-injective}
use k8s_jumperless.Viper.{Reading, not_found, read_in, unreadable}

abbrev pub on_command : {W : Type 0} → Bool × W → Option CommandError × W
on_command (true, w) = (none, w)
on_command (false, w) = (some run_failed, w)

-- An error of `PersistentPreRunE` ends the run; without one the command is run.
abbrev pub on_pre_run :
    {W : Type 0} → (W → Bool × W) → Option CommandError × W → Option CommandError × W
on_pre_run command (some e, w) = (some e, w)
on_pre_run command (none, w) = on_command (command w)

pub record IsCobra {W : Type 0} (cobra : Cobra W) : Type 0 where
  pub runs :
      (pre : W → Option CommandError × W) (command : W → Bool × W) (w : W)
      → cobra.execute_context pre command w ≡ on_pre_run command (pre w)

module _ {W : Type 0} (settings : Settings W) where
  -- The writing of the settings to the default file or to the given one.
  abbrev pub write_settings : Bytes → W → Bool × W
  write_settings [] w = settings.safe_write_config w
  write_settings (c ∷ file) w = settings.write_config_as (c ∷ file) w

  -- The ways to succeed once the settings are loaded.
  pub data Succeeds (file : Bytes) (command : W → Bool × W) (w : W)
      : Option Bool → Option Bool → Type 0 where
    shown :
        {generate : Bool}
        → (settings.write_config_to_stdout w).0 ≡ true
        → Succeeds file command w (some true) (some generate)
    generated : (write_settings file w).0 ≡ true → Succeeds file command w (some false) (some true)
    ran : (command w).0 ≡ true → Succeeds file command w (some false) (some false)

  -- A request ends the command with the status 0, a failure with 1.
  ended_by-status :
      (failure : CommandError) (r : Bool × W) (command : W → Bool × W)
      → exit_status (some failure) ≡ 1
      → (exit_status (on_pre_run command (ended_by settings failure show_requested r)).0 ≡ 0)
        ↔ (r.0 ≡ true)
  ended_by-status failure (true, w) command f = (λ _. refl, λ _. unfold exit_status in refl)
  ended_by-status failure (false, w) command f = (
    λ e. absurd (let k : 1 ≡ 0 = sym f ∙ e in omega arith),
    λ e. absurd (let k : false ≡ true = e in cc),
  )

  on_command-status : (r : Bool × W) → (exit_status (on_command r).0 ≡ 0) ↔ (r.0 ≡ true)
  unfolding exit_status
  on_command-status (true, w) = (λ _. refl, λ _. refl)
  on_command-status (false, w) =
      (λ e. absurd (omega arith), λ e. absurd (let k : false ≡ true = e in cc))

  generate_config-status :
      (file : Bytes) (command : W → Bool × W) (w : W)
      → (exit_status (on_pre_run command (generate_config settings file w)).0 ≡ 0)
        ↔ ((write_settings file w).0 ≡ true)
  unfolding generate_config
  generate_config-status [] command w =
      ended_by-status generate_failed (settings.safe_write_config w) command
        (unfold exit_status in refl)
  generate_config-status (c ∷ file) command w =
      ended_by-status generate_failed (settings.write_config_as (c ∷ file) w) command
        (unfold exit_status in refl)

  show_config-status :
      (command : W → Bool × W) (w : W)
      → (exit_status (on_pre_run command (show_config settings w)).0 ≡ 0)
        ↔ ((settings.write_config_to_stdout w).0 ≡ true)
  unfolding show_config
  show_config-status command w =
      ended_by-status show_failed (settings.write_config_to_stdout w) command
        (unfold exit_status in refl)

  abbrev status : Bytes → (W → Bool × W) → W → Option Bool → Option Bool → ℕ
  status file command w show generate =
      exit_status (on_pre_run command (on_flags settings file show generate w)).0

  status-Succeeds :
      (file : Bytes) (command : W → Bool × W) (w : W) (show generate : Option Bool)
      → status file command w show generate ≡ 0
      → Succeeds file command w show generate
  unfolding exit_status
  status-Succeeds file command w none generate e = absurd (omega arith)
  status-Succeeds file command w (some show) none e = absurd (omega arith)
  status-Succeeds file command w (some true) (some generate) e =
      shown ((show_config-status command w).0 e)
  status-Succeeds file command w (some false) (some true) e =
      generated ((generate_config-status file command w).0 e)
  status-Succeeds file command w (some false) (some false) e =
      ran ((on_command-status (command w)).0 e)

  Succeeds-status :
      (file : Bytes) (command : W → Bool × W) (w : W) {show generate : Option Bool}
      → Succeeds file command w show generate
      → status file command w show generate ≡ 0
  Succeeds-status file command w (shown e) = (show_config-status command w).1 e
  Succeeds-status file command w (generated e) = (generate_config-status file command w).1 e
  Succeeds-status file command w (ran e) = (on_command-status (command w)).1 e

  -- When the settings can be loaded, the exit status is 0 exactly when the settings are to be shown
  -- and are written to the standard output, or they are to be generated only and are written to
  -- the file, or neither and the command succeeds; in the first case the other flag must be
  -- readable. `ExecuteContext`, for flags that can be parsed and do not ask for
  -- help, runs the command if `PersistentPreRunE` returns no error.
  pub execute-status :
      (cobra : Cobra W) (law : IsCobra cobra) (flags : Flags) (file : Bytes)
      (command : W → Bool × W) (w w1 : W)
      → flags.config_file ≡ some file
      → load_config settings file w ≡ (none, w1)
      → (exit_status (execute settings cobra flags command w).0 ≡ 0)
        ↔ Succeeds file command w1 flags.show flags.generate
  unfolding execute pre_run
  execute-status cobra law flags file command w w1 given is_loaded =
      rw (law.runs, given, execute, pre_run, is_loaded)
        (status-Succeeds file command w1 flags.show flags.generate, Succeeds-status file command w1)

  ended_by-not_generate :
      (failure : CommandError) (r : Bool × W)
      → failure ≢ generate_requested
      → (ended_by settings failure show_requested r).0 ≢ some generate_requested
  ended_by-not_generate failure (true, w) ne e = cc
  ended_by-not_generate failure (false, w) ne e = ne (some-injective _ _ e)

  on_flags-not_generate :
      (file : Bytes) (show generate : Option Bool) (w : W)
      → (on_flags settings file show generate w).0 ≢ some generate_requested
  unfolding show_config generate_config
  on_flags-not_generate file none generate w e = cc
  on_flags-not_generate file (some show) none w e = cc
  on_flags-not_generate file (some true) (some generate) w e =
      ended_by-not_generate show_failed (settings.write_config_to_stdout w) (λ k. cc) e
  on_flags-not_generate [] (some false) (some true) w e =
      ended_by-not_generate generate_failed (settings.safe_write_config w) (λ k. cc) e
  on_flags-not_generate (c ∷ file) (some false) (some true) w e =
      ended_by-not_generate generate_failed (settings.write_config_as (c ∷ file) w) (λ k. cc) e
  on_flags-not_generate file (some false) (some false) w e = cc

  loaded-not_generate : (r : Reading Unit × W) → (loaded settings r).0 ≢ some generate_requested
  loaded-not_generate (read_in tt, w) e = cc
  loaded-not_generate (not_found, w) e = cc
  loaded-not_generate (unreadable, w) e = cc

  load_config-not_generate :
      (file : Bytes) (w : W) → (load_config settings file w).0 ≢ some generate_requested
  unfolding load_config
  load_config-not_generate [] w e = loaded-not_generate _ e
  load_config-not_generate (c ∷ file) w e = loaded-not_generate _ e

  on_load-not_generate :
      (file : Bytes) (flags : Flags) (r : Outcome settings)
      → r.0 ≢ some generate_requested
      → (on_load settings file flags r).0 ≢ some generate_requested
  on_load-not_generate file flags (some error, w) ne e = ne e
  on_load-not_generate file flags (none, w) ne e =
      on_flags-not_generate file flags.show flags.generate w e

  -- `PersistentPreRunE` never returns `ErrGenerateConfig`, whatever the flags and the settings.
  pub pre_run-not_generate :
      (flags : Flags) (w : W) → (pre_run settings flags w).0 ≢ some generate_requested
  unfolding pre_run
  pre_run-not_generate flags w =
      elim flags.config_file
          as (λ o. flags.config_file ≡ o → (pre_run settings flags w).0 ≢ some generate_requested) [
            | none ↦ λ f. rw (f, pre_run) (λ e. cc)
            | some file ↦ λ f.
                rw (f, pre_run)
                  (on_load-not_generate file flags (load_config settings file w)
                    (load_config-not_generate file w))
          ]
        refl
