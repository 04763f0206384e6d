-- ===== src/Controller/Patched.antt =====
-- What `Reconcile` patches.
use k8s_jumperless.Api.Types.{Jumperless, JumperlessConfigSection, JumperlessStatus}
use k8s_jumperless.Base.{ℕ, Bool, true, false, Option, none, some, List, [], ◌≡◌, refl, Bytes, ℤ}
use k8s_jumperless.Controller.Ready.{IsMeta, reconcile_local-generation}
use k8s_jumperless.Controller.Reconcile.{
  Cluster, Turn, errors_of, found, local_ended, patch_status, patched, reconcile, reconcile_host,
  reconcile_instance, status_instance, then_patch,
}
use k8s_jumperless.Controller.{ConditionStatus, Ended, Meta, ReconcileError, is_unknown}
use k8s_jumperless.Device.Board.{Tools}
use k8s_jumperless.Device.Port.{Serial}
use k8s_jumperless.Local.Config.{ConfigMap}

module _ (m : Meta) (serial : Serial) (tools : Tools serial)
    (order : ConfigMap → List JumperlessConfigSection) (fuel : ℕ) (meta : IsMeta m)
    (cluster : Cluster m serial) where
  -- The status has a `Ready` condition for the generation.
  abbrev pub IsSettled : ℤ → JumperlessStatus m.Conditions → Type 0
  IsSettled generation status =
      (s : ConditionStatus) × (m.find_ready status.conditions ≡ some (s, generation))

  pub local_ended-IsSettled :
      (generation : ℤ) (e : Ended m serial tools order fuel)
      → IsSettled generation e.1
      → IsSettled generation (local_ended m serial tools order fuel cluster e).1
  local_ended-IsSettled generation (none, status, w) h = h
  local_ended-IsSettled generation (some e, status, w) h = h

  reconcile_host-IsSettled :
      (instance' : Jumperless m.Conditions) (w : serial.World)
      → (reconcile_host m serial tools order fuel cluster instance' w).0 ≡ none
      → IsSettled instance'.generation
          (reconcile_host m serial tools order fuel cluster instance' w).1
  unfolding reconcile_host
  reconcile_host-IsSettled instance' w h =
      elim instance'.spec.host.local
          as (λ l.
            instance'.spec.host.local ≡ l
            → IsSettled instance'.generation
                (reconcile_host m serial tools order fuel cluster instance' w).1) [
                  | some host ↦ λ e.
                      rw (e, reconcile_host)
                        (local_ended-IsSettled instance'.generation _ (
                          reconcile_local-generation m serial tools order fuel meta
                            instance'.generation host instance'.status w))
                  | none ↦ λ e.
                      elim instance'.spec.host.ssh
                          as (λ l.
                            instance'.spec.host.ssh ≡ l
                            → IsSettled instance'.generation
                                (reconcile_host m serial tools order fuel cluster instance' w).1) [
                                  | some ssh ↦ λ f. (let k = rw (e, reconcile_host, f) at h in cc)
                                  | none ↦ λ f. (let k = rw (e, reconcile_host, f) at h in cc)
                                ]
                        refl
                ]
        refl

  reconcile_instance-IsSettled :
      (instance' : Jumperless m.Conditions) (w : serial.World)
      → (reconcile_instance m serial tools order fuel cluster instance' w).0 ≡ none
      → IsSettled instance'.generation
          (reconcile_instance m serial tools order fuel cluster instance' w).1
  unfolding reconcile_instance
  reconcile_instance-IsSettled instance' w h =
      elim (m.find_ready instance'.status.conditions)
          as (λ r.
            m.find_ready instance'.status.conditions ≡ r
            → IsSettled instance'.generation
                (reconcile_instance m serial tools order fuel cluster instance' w).1) [
                  | none ↦ λ e.
                      rw (e, reconcile_instance)
                        (is_unknown, meta.find-set instance'.status.conditions _)
                  | some r ↦ λ e.
                      rw (e, reconcile_instance)
                        (reconcile_host-IsSettled instance' w (rw (e, reconcile_instance) at h))
                ]
        refl

  -- The object of the status was patched into the cluster, and the patch ended in the world `w'`.
  pub record IsPatched (object : Jumperless m.Conditions) (w' : serial.World) : Type 0 where
    pub unstructured : cluster.Unstructured
    pub before : serial.World
    pub converted : cluster.to_unstructured object ≡ some unstructured
    pub accepted : cluster.patch unstructured before ≡ (true, w')

  patched-accepted :
      (r : Bool × serial.World)
      → (patched m serial tools order fuel cluster r).0 ≡ none
      → r ≡ (true, (patched m serial tools order fuel cluster r).1)
  patched-accepted (true, w) h = refl
  patched-accepted (false, w) h = cc

  patch_status-IsPatched :
      (instance' : Jumperless m.Conditions) (status : JumperlessStatus m.Conditions)
      (w : serial.World)
      → (patch_status m serial tools order fuel cluster instance' status w).0 ≡ none
      → IsPatched
          (status_instance instance' status)
          (patch_status m serial tools order fuel cluster instance' status w).1
  unfolding patch_status
  patch_status-IsPatched instance' status w h =
      elim (cluster.to_unstructured (status_instance instance' status))
          as (λ u.
            cluster.to_unstructured (status_instance instance' status) ≡ u
            → IsPatched (status_instance instance' status)
                (patch_status m serial tools order fuel cluster instance' status w).1) [
                  | none ↦ λ e. (let k = rw (e, patch_status) at h in cc)
                  | some u ↦ λ e.
                      rw (e, patch_status)
                        (record {
                          unstructured = u;
                          before = w;
                          converted = e;
                          accepted =
                              patched-accepted (cluster.patch u w) (rw (e, patch_status) at h);
                        })
                ]
        refl

  no_error : (o : Option ReconcileError) → errors_of o ≡ [] → o ≡ none
  no_error none h = refl
  no_error (some e) h = cc

  then_patch-IsPatched :
      (instance' : Jumperless m.Conditions) (turn : Turn m serial tools order fuel cluster)
      → (turn.0 ≡ none → IsSettled instance'.generation turn.1)
      → (then_patch m serial tools order fuel cluster instance' turn).0 ≡ []
      → (status : JumperlessStatus m.Conditions) × IsSettled instance'.generation status
        × IsPatched
            (status_instance instance' status)
            (then_patch m serial tools order fuel cluster instance' turn).1
  then_patch-IsPatched instance' (some e, status, w) settled h = cc
  then_patch-IsPatched instance' (none, status, w) settled h =
      (status, settled refl, patch_status-IsPatched instance' status w (no_error _ h))

  -- When `Reconcile` of a resource that is there returns no error, it has patched a status with a
  -- `Ready` condition for the resource's generation into the cluster, and did so last.
  -- `FindStatusCondition` finds what `SetStatusCondition` has set.
  pub reconcile-IsPatched :
      (name : Bytes × Bytes) (w w1 : serial.World) (instance' : Jumperless m.Conditions)
      → cluster.fetch name w ≡ (found instance', w1)
      → (reconcile m serial tools order fuel cluster name w).0 ≡ []
      → (status : JumperlessStatus m.Conditions) × IsSettled instance'.generation status
        × IsPatched
            (status_instance instance' status)
            (reconcile m serial tools order fuel cluster name w).1
  unfolding reconcile
  reconcile-IsPatched name w w1 instance' fetched h =
      rw (fetched, reconcile)
        (then_patch-IsPatched instance'
          (reconcile_instance m serial tools order fuel cluster instance' w1)
          (reconcile_instance-IsSettled instance' w1) (rw (fetched, reconcile) at h))
