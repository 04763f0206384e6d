-- ===== src/Controller.antt =====
-- `Reconcile` and its parts, of internal/controller/jumperless_controller.go.
pub mod Closed
pub mod Complete
pub mod Patched
pub mod Ready
pub mod Reconcile
pub mod Settling
pub mod Tidy
use k8s_jumperless.Api.Config.{upsert_config}
use k8s_jumperless.Api.Types.{
  DacStatus, Jumperless, JumperlessConfigSection, JumperlessHostLocal, JumperlessSpec,
  JumperlessStatus, Net,
}
use k8s_jumperless.Base.{
  ℕ, Bool, true, false, not, ◌&&◌, ◌||◌, Option, none, some, List, [], ◌∷◌, ◌++◌, if◌then◌else◌,
  Bytes, codes, ℤ, pos, lez, Result, ok, err,
}
use k8s_jumperless.Device.Board.{FindError, Tools, new_jumperless}
use k8s_jumperless.Device.Port.{JumperlessPort, PortError, Run, Serial, close_port, open_port}
use k8s_jumperless.Local.Commands.{
  LocalError, channel_name, dac_channels, get_config, get_dac, get_nets,
}
use k8s_jumperless.Local.Config.{ConfigMap}

pub data ConditionStatus : Type 0 where
  is_true is_false is_unknown : ConditionStatus

-- A condition of type `Ready`.
pub record Condition : Type 0 where
  pub status : ConditionStatus
  pub reason : Bytes
  pub message : Bytes
  pub observed_generation : ℤ

-- The package meta of apimachinery: `FindStatusCondition` for `Ready`, of which the code reads the
-- status and the generation, `SetStatusCondition`, and the text of an error.
pub record Meta : Type 1 where
  pub Conditions : Type 0
  pub find_ready : Conditions → Option (ConditionStatus × ℤ)
  pub set_ready : Conditions → Condition → Bool × Conditions
  pub error_text : PortError → Bytes

abbrev pub condition : ConditionStatus → Bytes → Bytes → ℤ → Condition
condition status reason message generation = record {
  status = status;
  reason = reason;
  message = message;
  observed_generation = generation;
}

-- The errors of `reconcileLocal`.
pub data LocalFailure : Type 0 where
  find_failed : FindError → LocalFailure
  open_failed : PortError → LocalFailure
  dac_failed : ℤ → LocalError → LocalFailure
  nets_failed config_failed : LocalError → LocalFailure

-- What `Reconcile` may return an aggregate of.
pub data ReconcileError : Type 0 where
  get_failed unknown_host not_implemented convert_failed patch_failed : ReconcileError
  local_failed : LocalFailure → ReconcileError

abbrev same_generation : ℤ → ℤ → Bool
same_generation a b = lez a b && lez b a

-- Is there no `Ready` condition, or one that is true for another generation?
abbrev pub is_stale : Option (ConditionStatus × ℤ) → ℤ → Bool
is_stale none generation = true
is_stale (some (is_true, observed)) generation = not (same_generation observed generation)
is_stale (some (is_false, observed)) generation = false
is_stale (some (is_unknown, observed)) generation = false

-- `ptr.Deref(p, "")`
abbrev pub deref_bytes : Option Bytes → Bytes
deref_bytes none = []
deref_bytes (some s) = s

-- `ptr.Deref(p, 0)`
abbrev pub deref_int : Option ℤ → ℤ
deref_int none = pos 0
deref_int (some n) = n

module _ (m : Meta) (serial : Serial) (tools : Tools serial)
    (order : ConfigMap → List JumperlessConfigSection) (fuel : ℕ) where
  abbrev pub Status : Type 0
  Status = JumperlessStatus m.Conditions

  -- The error, if any, with the status and the world behind it.
  abbrev pub Ended : Type 0
  Ended = Option LocalFailure × Status × serial.World

  abbrev pub with_ready : Condition → Status → Status
  with_ready c status = record status { conditions = (m.set_ready status.conditions c).1 }

  abbrev pub dac_onto :
      ℤ
      → (List DacStatus → serial.World → Result LocalFailure (List DacStatus) × serial.World)
      → List DacStatus
      → Result LocalError Bytes × serial.World
      → Result LocalFailure (List DacStatus) × serial.World
  dac_onto channel next dacs (err e, w) = (err (dac_failed channel e), w)
  dac_onto channel next dacs (ok voltage, w) =
      next (dacs ++ record { channel = channel_name channel; voltage = voltage } ∷ []) w

  -- The loop over the channels, with the statuses so far.
  unfoldable pub read_dacs :
      JumperlessPort serial
      → List ℤ
      → List DacStatus
      → serial.World
      → Result LocalFailure (List DacStatus) × serial.World
  unfolding get_dac channel_name
  read_dacs j [] dacs w = (ok dacs, w)
  read_dacs j (channel ∷ channels) dacs w =
      dac_onto channel (read_dacs j channels) dacs (get_dac serial tools order fuel j channel w)

  abbrev pub config_into :
      Status → Result LocalError (List JumperlessConfigSection) × serial.World → Ended
  config_into status (err e, w) = (some (config_failed e), status, w)
  config_into status (ok config, w) = (none, upsert_config status config, w)

  abbrev pub nets_into :
      JumperlessPort serial → Status → Result LocalError (List Net) × serial.World → Ended
  nets_into j status (err e, w) = (some (nets_failed e), status, w)
  nets_into j status (ok nets, w) =
      config_into (record status { nets = nets }) (get_config serial tools order fuel j w)

  abbrev pub dacs_into :
      JumperlessPort serial → Status → Result LocalFailure (List DacStatus) × serial.World → Ended
  dacs_into j status (err e, w) = (some e, status, w)
  dacs_into j status (ok dacs, w) =
      nets_into j (record status { dacs = dacs }) (get_nets serial tools order fuel j w)

  -- What `reconcileLocal` does with an open port.
  unfoldable pub read_board : ℤ → JumperlessPort serial → Status → serial.World → Ended
  unfolding read_dacs get_nets get_config upsert_config
  read_board generation j status w =
      dacs_into j
        (record (with_ready
          (condition is_true (codes "Reconciled")
            (codes "Jumperless successfully reconciled locally") generation)
          status) { local_port = some j.port_name; firmware_version = some j.version })
        (read_dacs j dac_channels [] w)

  -- The deferred `ClosePort`, whose error is only logged.
  abbrev pub closing : JumperlessPort serial → Ended → Ended
  closing j (e, status, w) = (e, status, (close_port serial j w).1)

  abbrev pub with_open : ℤ → Status → Run serial (JumperlessPort serial) → Ended
  with_open generation status (err e, w) = (
    some (open_failed e),
    with_ready
        (condition is_false (codes "PortOpenError")
          (codes "Unable to open Jumperless port: " ++ m.error_text e) generation)
        status,
    w,
  )
  with_open generation status (ok j, w) = closing j (read_board generation j status w)

  abbrev pub with_board :
      ℤ → Bytes → Status → Result FindError (JumperlessPort serial) × serial.World → Ended
  with_board generation port status (err e, w) = (
    some (find_failed e),
    with_ready
        (condition is_false (codes "NoJumperlessFound")
          (codes "No Jumperless device found on specified port: " ++ port) generation)
        status,
    w,
  )
  with_board generation port status (ok j, w) = with_open generation status (open_port serial j w)

  -- `reconcileLocal` from the search for a board on.
  unfoldable pub connect : ℤ → JumperlessHostLocal → Status → serial.World → Ended
  unfolding new_jumperless open_port close_port read_board
  connect generation host status w =
      let port = deref_bytes host.port in
      with_board generation port status
        (new_jumperless serial tools fuel port (deref_int host.baud_rate) w)

  -- A change of the condition ends the reconciliation until the next one.
  abbrev pub unless_changed :
      ℤ → JumperlessHostLocal → Status → Bool × m.Conditions → serial.World → Ended
  unless_changed generation host status (true, conditions) w =
      (none, record status { conditions = conditions }, w)
  unless_changed generation host status (false, conditions) w =
      connect generation host (record status { conditions = conditions }) w

  -- `reconcileLocal`
  unfoldable pub reconcile_local : ℤ → JumperlessHostLocal → Status → serial.World → Ended
  unfolding connect
  reconcile_local generation host status w =
      elim (is_stale (m.find_ready status.conditions) generation) [
        | true ↦
            unless_changed generation host status
              (m.set_ready status.conditions (
                condition is_false (codes "Reconciling")
                  (codes "Jumperless is being reconciled locally") generation))
              w
        | false ↦ connect generation host status w
      ]

  -- `reconcileRemote`
  unfoldable pub reconcile_remote : ℤ → Status → Status
  reconcile_remote generation status =
      with_ready
        (condition is_false (codes "NotImplemented")
          (codes "Remote reconciliation is not yet implemented") generation)
        status
