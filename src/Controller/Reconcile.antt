-- ===== src/Controller/Reconcile.antt =====
-- `Reconcile` and `patchStatus` of internal/controller/jumperless_controller.go.
use k8s_jumperless.Api.Types.{Jumperless, JumperlessConfigSection, JumperlessSpec, JumperlessStatus}
use k8s_jumperless.Base.{
  ℕ, Bool, true, false, Option, none, some, List, [], ◌∷◌, ◌++◌, Bytes, codes, pos,
}
use k8s_jumperless.Controller.{
  Ended, Meta, ReconcileError, condition, convert_failed, get_failed, is_unknown, local_failed,
  not_implemented, patch_failed, reconcile_local, reconcile_remote, unknown_host, with_ready,
}
use k8s_jumperless.Device.Board.{Tools}
use k8s_jumperless.Device.Port.{Serial}
use k8s_jumperless.Local.Config.{ConfigMap}

-- What `Get` finds.
pub data Fetched (C : Type 0) : Type 0 where
  found : Jumperless C → Fetched C
  not_found : Fetched C
  unavailable : Fetched C

-- The client of controller-runtime: `Get` by namespace and name, `ToUnstructured`, which may
-- fail, and the patch of the status, where `true` means no error.
pub record Cluster (m : Meta) (serial : Serial) : Type 1 where
  pub Unstructured : Type 0
  pub fetch : Bytes × Bytes → serial.World → Fetched m.Conditions × serial.World
  pub to_unstructured : Jumperless m.Conditions → Option Unstructured
  pub patch : Unstructured → serial.World → Bool × serial.World

abbrev empty_spec : JumperlessSpec
empty_spec = record { host = record { local = none; ssh = none }; dacs = [] }

-- The object that is patched: of the instance it has the name and the namespace.
abbrev pub status_instance : {C : Type 0} → Jumperless C → JumperlessStatus C → Jumperless C
status_instance instance' status = record {
  name = instance'.name;
  namespace = instance'.namespace;
  generation = pos 0;
  spec = empty_spec;
  status = status;
}

-- `NewAggregate` leaves out what is nil.
abbrev pub errors_of : Option ReconcileError → List ReconcileError
errors_of none = []
errors_of (some e) = e ∷ []

module _ (m : Meta) (serial : Serial) (tools : Tools serial)
    (order : ConfigMap → List JumperlessConfigSection) (fuel : ℕ) (cluster : Cluster m serial) where
  abbrev pub patched : Bool × serial.World → Option ReconcileError × serial.World
  patched (true, w) = (none, w)
  patched (false, w) = (some patch_failed, w)

  -- `patchStatus`
  unfoldable pub patch_status :
      Jumperless m.Conditions
      → JumperlessStatus m.Conditions
      → serial.World
      → Option ReconcileError × serial.World
  patch_status instance' status w =
      elim (cluster.to_unstructured (status_instance instance' status)) [
        | none ↦ (some convert_failed, w)
        | some u ↦ patched (cluster.patch u w)
      ]

  -- The error so far, the status to patch, and the world.
  abbrev pub Turn : Type 0
  Turn = Option ReconcileError × JumperlessStatus m.Conditions × serial.World

  abbrev pub local_ended : Ended m serial tools order fuel → Turn
  local_ended (none, status, w) = (none, status, w)
  local_ended (some e, status, w) = (some (local_failed e), status, w)

  -- The `switch` on the host.
  unfoldable pub reconcile_host : Jumperless m.Conditions → serial.World → Turn
  unfolding reconcile_local reconcile_remote
  reconcile_host instance' w = elim instance'.spec.host.local [
    | some host ↦
        local_ended
          (reconcile_local m serial tools order fuel instance'.generation host instance'.status w)
    | none ↦ elim instance'.spec.host.ssh [
      | some ssh ↦ (
        some not_implemented,
        reconcile_remote m serial tools order fuel instance'.generation instance'.status,
        w,
      )
      | none ↦ (some unknown_host, instance'.status, w)
    ]
  ]

  -- `Reconcile` between the fetch and the deferred patch. Without conditions none is found.
  unfoldable pub reconcile_instance : Jumperless m.Conditions → serial.World → Turn
  unfolding reconcile_host
  reconcile_instance instance' w = elim (m.find_ready instance'.status.conditions) [
    | none ↦ (
      none,
      with_ready m serial tools order fuel
          (condition is_unknown (codes "Reconciling") (codes "Jumperless is being reconciled")
            instance'.generation)
          instance'.status,
      w,
    )
    | some ready ↦ reconcile_host instance' w
  ]

  abbrev pub then_patch : Jumperless m.Conditions → Turn → List ReconcileError × serial.World
  then_patch instance' (e, status, w) =
      let (failure, w') = patch_status instance' status w in (errors_of e ++ errors_of failure, w')

  abbrev pub reconcile_fetched :
      Fetched m.Conditions × serial.World → List ReconcileError × serial.World
  reconcile_fetched (found instance', w) = then_patch instance' (reconcile_instance instance' w)
  reconcile_fetched (not_found, w) = ([], w)
  reconcile_fetched (unavailable, w) = (get_failed ∷ [], w)

  -- `Reconcile`: the errors of the aggregate it returns, none for nil.
  unfoldable pub reconcile : Bytes × Bytes → serial.World → List ReconcileError × serial.World
  unfolding reconcile_instance patch_status
  reconcile name w = reconcile_fetched (cluster.fetch name w)
