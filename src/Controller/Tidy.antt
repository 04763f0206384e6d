-- ===== src/Controller/Tidy.antt =====
-- `reconcileLocal` closes each port that it opens.
use k8s_jumperless.Api.Types.{
  DacStatus, JumperlessConfigSection, JumperlessHostLocal, JumperlessStatus, Net,
}
use k8s_jumperless.Base.Calls.{Call, Tidy, acquired, released, Tidy-bracket, Tidy-same, Tidy-trans}
use k8s_jumperless.Base.{
  ℕ, Bool, true, false, some, List, [], ◌∷◌, ◌++◌, ◌≡◌, refl, ◌∙◌, Bytes, codes, ℤ, pos, Result, ok,
  err, Bool-cases, inl, inr,
}
use k8s_jumperless.Controller.{
  Ended, LocalFailure, Meta, closing, config_into, connect, dac_onto, dacs_into, deref_bytes,
  deref_int, is_stale, nets_into, read_board, read_dacs, reconcile_local, unless_changed,
  with_board, with_open,
}
use k8s_jumperless.Device.Board.Tidy.{new_jumperless-Tidy}
use k8s_jumperless.Device.Board.{
  ExecError, FindError, Tools, checked_output, exec_python_command, new_jumperless,
}
use k8s_jumperless.Device.Port.Tidy.{
  IsLogged, log-close_port, log-exec_raw_command, log-open_port, log-open_port_failed,
}
use k8s_jumperless.Device.Port.{JumperlessPort, PortError, Run, Serial, exec_raw_command, open_port}
use k8s_jumperless.Local.Commands.{
  LocalError, config_read, dac_channels, dac_read, get_config, get_dac, get_nets, nets_read,
}
use k8s_jumperless.Local.Config.{ConfigMap}
use k8s_jumperless.Strings.Number.{format_int}

module _ (m : Meta) (serial : Serial) (tools : Tools serial)
    (order : ConfigMap → List JumperlessConfigSection) (fuel : ℕ) {R : Type 0}
    (log : serial.World → List (Call R)) (laws : IsLogged serial log) where
  log-exec_python_command :
      (j : JumperlessPort serial) (command : Bytes) (wait : ℤ) (w : serial.World)
      → log (exec_python_command serial tools fuel j command wait w).1 ≡ log w
  unfolding exec_python_command
  log-exec_python_command j command wait w =
      go (exec_raw_command serial fuel j (b'>' ∷ command) wait w)
      ∙ log-exec_raw_command serial log laws fuel j (b'>' ∷ command) wait w
    where
      go : (r : Run serial Bytes) → log (checked_output serial tools r).1 ≡ log r.1
      go (err e, w) = refl
      go (ok s, w) = refl

  log-get_dac :
      (j : JumperlessPort serial) (channel : ℤ) (w : serial.World)
      → log (get_dac serial tools order fuel j channel w).1 ≡ log w
  unfolding get_dac
  log-get_dac j channel w =
      go (exec_python_command serial tools fuel j _ (pos 10000000) w)
      ∙ log-exec_python_command j (codes "dac_get(" ++ (format_int channel ++ codes ")"))
          (pos 10000000) w
    where
      go :
          (r : Result ExecError Bytes × serial.World)
          → log (dac_read serial tools order fuel r).1 ≡ log r.1
      go (err e, w) = refl
      go (ok s, w) = refl

  log-get_nets :
      (j : JumperlessPort serial) (w : serial.World)
      → log (get_nets serial tools order fuel j w).1 ≡ log w
  unfolding get_nets
  log-get_nets j w =
      go (exec_python_command serial tools fuel j _ (pos 10000000) w)
      ∙ log-exec_python_command j (codes "print_nets()") (pos 10000000) w
    where
      go :
          (r : Result ExecError Bytes × serial.World)
          → log (nets_read serial tools order fuel r).1 ≡ log r.1
      go (err e, w) = refl
      go (ok s, w) = refl

  log-get_config :
      (j : JumperlessPort serial) (w : serial.World)
      → log (get_config serial tools order fuel j w).1 ≡ log w
  unfolding get_config
  log-get_config j w =
      go (exec_raw_command serial fuel j (codes "~") (pos 500000000) w)
      ∙ log-exec_raw_command serial log laws fuel j (codes "~") (pos 500000000) w
    where
      go : (r : Run serial Bytes) → log (config_read serial tools order fuel r).1 ≡ log r.1
      go (err e, w) = refl
      go (ok s, w) = refl

  log-read_dacs :
      (j : JumperlessPort serial) (channels : List ℤ) (dacs : List DacStatus) (w : serial.World)
      → log (read_dacs m serial tools order fuel j channels dacs w).1 ≡ log w
  unfolding read_dacs
  log-read_dacs j [] dacs w = refl
  log-read_dacs j (channel ∷ channels) dacs w =
      go (λ more w1. log-read_dacs j channels more w1) (get_dac serial tools order fuel j channel w)
      ∙ log-get_dac j channel w
    where
      go :
          ((more : List DacStatus) (w1 : serial.World)
            → log (read_dacs m serial tools order fuel j channels more w1).1 ≡ log w1)
          → (r : Result LocalError Bytes × serial.World)
          → log
              (dac_onto m serial tools order fuel channel
                (read_dacs m serial tools order fuel j channels)
                dacs
                r).1
            ≡ log r.1
      go f (err e, w1) = refl
      go f (ok voltage, w1) = f _ w1

  log-config_into :
      (status : JumperlessStatus m.Conditions)
      (r : Result LocalError (List JumperlessConfigSection) × serial.World)
      → log (config_into m serial tools order fuel status r).2 ≡ log r.1
  log-config_into status (err e, w) = refl
  log-config_into status (ok config, w) = refl

  log-nets_into :
      (j : JumperlessPort serial) (status : JumperlessStatus m.Conditions)
      (r : Result LocalError (List Net) × serial.World)
      → log (nets_into m serial tools order fuel j status r).2 ≡ log r.1
  log-nets_into j status (err e, w) = refl
  log-nets_into j status (ok nets, w) =
      log-config_into (record status { nets = nets }) (get_config serial tools order fuel j w)
      ∙ log-get_config j w

  log-dacs_into :
      (j : JumperlessPort serial) (status : JumperlessStatus m.Conditions)
      (r : Result LocalFailure (List DacStatus) × serial.World)
      → log (dacs_into m serial tools order fuel j status r).2 ≡ log r.1
  log-dacs_into j status (err e, w) = refl
  log-dacs_into j status (ok dacs, w) =
      log-nets_into j (record status { dacs = dacs }) (get_nets serial tools order fuel j w)
      ∙ log-get_nets j w

  log-closing :
      (j : JumperlessPort serial) (h : serial.Handle) (e : Ended m serial tools order fuel)
      → j.port ≡ some h
      → log (closing m serial tools order fuel j e).2 ≡ log e.2 ++ released (laws.port h) ∷ []
  log-closing j h (e, status, w) o = log-close_port serial log laws j h w o

  module _ (generation : ℤ) where
    log-read_board :
        (j : JumperlessPort serial) (status : JumperlessStatus m.Conditions) (w : serial.World)
        → log (read_board m serial tools order fuel generation j status w).2 ≡ log w
    unfolding read_board
    log-read_board j status w =
        log-dacs_into j _ (read_dacs m serial tools order fuel j dac_channels [] w)
        ∙ log-read_dacs j dac_channels [] w

    with_open-Tidy :
        (status : JumperlessStatus m.Conditions) (j : JumperlessPort serial) (w : serial.World)
        → Tidy log w
            (with_open m serial tools order fuel generation status (open_port serial j w)).2
    with_open-Tidy status j w =
        go (open_port serial j w) (log-open_port serial log laws j w)
          (log-open_port_failed serial log laws j w)
      where
        go :
            (r : Run serial (JumperlessPort serial))
            → ((q : JumperlessPort serial)
                → r.0 ≡ ok q
                → (h : serial.Handle) × (q.port ≡ some h)
                  × (log r.1 ≡ log w ++ acquired (laws.port h) ∷ []))
            → ((e : PortError) → r.0 ≡ err e → log r.1 ≡ log w)
            → Tidy log w (with_open m serial tools order fuel generation status r).2
        go (err e, w1) f g = Tidy-same log (g e refl)
        go (ok q, w1) f g =
            let (h, is_open, acquires) = f q refl in
            Tidy-bracket log (laws.port h) acquires (Tidy-same log (log-read_board q status w1)) (
              log-closing q h (read_board m serial tools order fuel generation q status w1) is_open)

    module _ (log_names : (w : serial.World) → log (tools.port_names w).1 ≡ log w)
        (host : JumperlessHostLocal) where
      connect-Tidy :
          (status : JumperlessStatus m.Conditions) (w : serial.World)
          → Tidy log w (connect m serial tools order fuel generation host status w).2
      unfolding connect
      connect-Tidy status w =
          go (new_jumperless serial tools fuel (deref_bytes host.port) (deref_int host.baud_rate) w)
            (new_jumperless-Tidy serial log laws tools log_names fuel (deref_bytes host.port)
              (deref_int host.baud_rate) w)
        where
          go :
              (r : Result FindError (JumperlessPort serial) × serial.World)
              → Tidy log w r.1
              → Tidy log w
                  (with_board m serial tools order fuel generation
                    (deref_bytes host.port)
                    status
                    r).2
          go (err e, w1) t = t
          go (ok j, w1) t = Tidy-trans log t (with_open-Tidy status j w1)

      unless_changed-Tidy :
          (status : JumperlessStatus m.Conditions) (r : Bool × m.Conditions) (w : serial.World)
          → Tidy log w (unless_changed m serial tools order fuel generation host status r w).2
      unless_changed-Tidy status (true, conditions) w = Tidy-same log refl
      unless_changed-Tidy status (false, conditions) w =
          connect-Tidy (record status { conditions = conditions }) w

      pub reconcile_local-Tidy :
          (status : JumperlessStatus m.Conditions) (w : serial.World)
          → Tidy log w (reconcile_local m serial tools order fuel generation host status w).2
      unfolding reconcile_local
      reconcile_local-Tidy status w =
          elim (Bool-cases (is_stale (m.find_ready status.conditions) generation)) [
            | inl e ↦ rw (e, reconcile_local) (unless_changed-Tidy status _ w)
            | inr e ↦ rw (e, reconcile_local) (connect-Tidy status w)
          ]
