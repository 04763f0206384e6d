-- ===== src/Controller/Ready.antt =====
-- The `Ready` condition behind `reconcileLocal`, and what a status without an error holds.
use k8s_jumperless.Api.Config.{upsert_config}
use k8s_jumperless.Api.Types.{
  DacStatus, JumperlessConfigSection, JumperlessHostLocal, JumperlessStatus, Net,
}
use k8s_jumperless.Base.{
  ℕ, Bool, true, false, some, List, [], ◌≡◌, refl, ap, ◌∙◌, Bytes, ℤ, Result, ok, err, Bool-cases,
  inl, inr,
}
use k8s_jumperless.Controller.{
  Condition, ConditionStatus, Ended, LocalFailure, Meta, closing, config_into, connect, dacs_into,
  deref_bytes, deref_int, is_false, is_stale, is_true, nets_into, read_board, read_dacs,
  reconcile_local, unless_changed, with_board, with_open,
}
use k8s_jumperless.Device.Board.{FindError, Tools, new_jumperless}
use k8s_jumperless.Device.Port.{JumperlessPort, Run, Serial, open_port}
use k8s_jumperless.Local.Commands.{LocalError, dac_channels, get_config, get_nets}
use k8s_jumperless.Local.Config.{ConfigMap}

-- `FindStatusCondition` finds what `SetStatusCondition` has set.
pub record IsMeta (m : Meta) : Type 0 where
  pub find-set :
      (cs : m.Conditions) (c : Condition)
      → m.find_ready (m.set_ready cs c).1 ≡ some (c.status, c.observed_generation)

module _ (m : Meta) (serial : Serial) (tools : Tools serial)
    (order : ConfigMap → List JumperlessConfigSection) (fuel : ℕ) where
  conditions-config_into :
      (status : JumperlessStatus m.Conditions)
      (r : Result LocalError (List JumperlessConfigSection) × serial.World)
      → (config_into m serial tools order fuel status r).1.conditions ≡ status.conditions
  unfolding upsert_config
  conditions-config_into status (err e, w) = refl
  conditions-config_into status (ok config, w) = refl

  conditions-nets_into :
      (j : JumperlessPort serial) (status : JumperlessStatus m.Conditions)
      (r : Result LocalError (List Net) × serial.World)
      → (nets_into m serial tools order fuel j status r).1.conditions ≡ status.conditions
  conditions-nets_into j status (err e, w) = refl
  conditions-nets_into j status (ok nets, w) =
      conditions-config_into (record status { nets = nets })
        (get_config serial tools order fuel j w)

  conditions-dacs_into :
      (j : JumperlessPort serial) (status : JumperlessStatus m.Conditions)
      (r : Result LocalFailure (List DacStatus) × serial.World)
      → (dacs_into m serial tools order fuel j status r).1.conditions ≡ status.conditions
  conditions-dacs_into j status (err e, w) = refl
  conditions-dacs_into j status (ok dacs, w) =
      conditions-nets_into j (record status { dacs = dacs }) (get_nets serial tools order fuel j w)

  pub status-closing :
      (j : JumperlessPort serial) (e : Ended m serial tools order fuel)
      → ((closing m serial tools order fuel j e).0 ≡ e.0)
        × ((closing m serial tools order fuel j e).1 ≡ e.1)
  status-closing j (e, status, w) = (refl, refl)

  module _ (meta : IsMeta m) (generation : ℤ) (host : JumperlessHostLocal)
      (status : JumperlessStatus m.Conditions) (w : serial.World) where
    open_board-Ready :
        (status' : JumperlessStatus m.Conditions) (j : JumperlessPort serial) (w' : serial.World)
        → m.find_ready
            (with_open m serial tools order fuel generation status' (ok j, w')).1.conditions
          ≡ some (is_true, generation)
    unfolding read_board
    open_board-Ready status' j w' =
        ap (λ (s : JumperlessStatus m.Conditions). m.find_ready s.conditions)
          ((status-closing j (read_board m serial tools order fuel generation j status' w')).1)
        ∙ ap m.find_ready
            (conditions-dacs_into j _ (read_dacs m serial tools order fuel j dac_channels [] w'))
        ∙ meta.find-set status'.conditions _

    with_open-Ready :
        (status' : JumperlessStatus m.Conditions) (r : Run serial (JumperlessPort serial))
        → (s : ConditionStatus) × (m.find_ready
              (with_open m serial tools order fuel generation status' r).1.conditions
            ≡ some (s, generation))
    with_open-Ready status' (err e, w') = (is_false, meta.find-set status'.conditions _)
    with_open-Ready status' (ok j, w') = (is_true, open_board-Ready status' j w')

    with_board-Ready :
        (status' : JumperlessStatus m.Conditions) (port : Bytes)
        (r : Result FindError (JumperlessPort serial) × serial.World)
        → (s : ConditionStatus) × (m.find_ready
              (with_board m serial tools order fuel generation port status' r).1.conditions
            ≡ some (s, generation))
    with_board-Ready status' port (err e, w') = (is_false, meta.find-set status'.conditions _)
    with_board-Ready status' port (ok j, w') = with_open-Ready status' (open_port serial j w')

    -- Once a board is found and its port is open, the `Ready` condition is true for the generation
    -- when `reconcileLocal` ends, whether or not the board's voltages, nets and configuration
    -- could be read. The condition that was there is not stale, and `FindStatusCondition` finds what
    -- `SetStatusCondition` has set.
    pub reconcile_local-Ready :
        (j : JumperlessPort serial) (w1 : serial.World) (k : JumperlessPort serial)
        (w2 : serial.World)
        → is_stale (m.find_ready status.conditions) generation ≡ false
        → new_jumperless serial tools fuel (deref_bytes host.port) (deref_int host.baud_rate) w
          ≡ (ok j, w1)
        → open_port serial j w1 ≡ (ok k, w2)
        → m.find_ready
            (reconcile_local m serial tools order fuel generation host status w).1.conditions
          ≡ some (is_true, generation)
    unfolding reconcile_local connect
    reconcile_local-Ready j w1 k w2 fresh found opened =
        rw (fresh, reconcile_local) (rw (found, connect, opened) (open_board-Ready status k w2))

    unless_changed-Ready :
        (r : Bool × m.Conditions) (s : ConditionStatus)
        → m.find_ready r.1 ≡ some (s, generation)
        → (s' : ConditionStatus) × (m.find_ready
              (unless_changed m serial tools order fuel generation host status r w).1.conditions
            ≡ some (s', generation))
    unfolding connect
    unless_changed-Ready (true, conditions) s h = (s, h)
    unless_changed-Ready (false, conditions) s h =
        with_board-Ready (record status { conditions = conditions }) _ _

    -- However `reconcileLocal` ends, there is a `Ready` condition for the generation, if
    -- `FindStatusCondition` finds what `SetStatusCondition` has set.
    pub reconcile_local-generation :
        (s : ConditionStatus) × (m.find_ready
            (reconcile_local m serial tools order fuel generation host status w).1.conditions
          ≡ some (s, generation))
    unfolding reconcile_local connect
    reconcile_local-generation =
        elim (Bool-cases (is_stale (m.find_ready status.conditions) generation)) [
          | inl stale ↦
              rw (stale, reconcile_local)
                (unless_changed-Ready _ is_false (meta.find-set status.conditions _))
          | inr fresh ↦ rw (fresh, reconcile_local) (with_board-Ready status _ _)
        ]
