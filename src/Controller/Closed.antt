-- ===== src/Controller/Closed.antt =====
-- `Reconcile` closes each port that it opens.
use k8s_jumperless.Api.Types.{Jumperless, JumperlessConfigSection, JumperlessStatus}
use k8s_jumperless.Base.Calls.{Call, Tidy, Tidy-same, Tidy-trans}
use k8s_jumperless.Base.{ℕ, Bool, true, false, none, some, List, ◌≡◌, refl, ◌∙◌, Bytes}
use k8s_jumperless.Controller.Reconcile.{
  Cluster, Fetched, Turn, found, local_ended, not_found, patch_status, patched, reconcile,
  reconcile_fetched, reconcile_host, reconcile_instance, status_instance, then_patch, unavailable,
}
use k8s_jumperless.Controller.Tidy.{reconcile_local-Tidy}
use k8s_jumperless.Controller.{Ended, Meta}
use k8s_jumperless.Device.Board.{Tools}
use k8s_jumperless.Device.Port.Tidy.{IsLogged}
use k8s_jumperless.Device.Port.{Serial}
use k8s_jumperless.Local.Config.{ConfigMap}

-- The client of the cluster opens and closes no port.
pub record IsQuiet {m : Meta} {serial : Serial} {R : Type 0} (cluster : Cluster m serial)
    (log : serial.World → List (Call R)) : Type 0 where
  pub log_fetch : (name : Bytes × Bytes) (w : serial.World) → log (cluster.fetch name w).1 ≡ log w
  pub log_patch :
      (object : cluster.Unstructured) (w : serial.World) → log (cluster.patch object w).1 ≡ log w

module _ (m : Meta) (serial : Serial) (tools : Tools serial)
    (order : ConfigMap → List JumperlessConfigSection) (fuel : ℕ) (cluster : Cluster m serial)
    {R : Type 0} (log : serial.World → List (Call R)) (laws : IsLogged serial log)
    (quiet : IsQuiet cluster log)
    (log_names : (w : serial.World) → log (tools.port_names w).1 ≡ log w) where
  local_ended-Tidy :
      (w : serial.World) (e : Ended m serial tools order fuel)
      → Tidy log w e.2
      → Tidy log w (local_ended m serial tools order fuel cluster e).2
  local_ended-Tidy w (none, status, w1) h = h
  local_ended-Tidy w (some e, status, w1) h = h

  reconcile_host-Tidy :
      (instance' : Jumperless m.Conditions) (w : serial.World)
      → Tidy log w (reconcile_host m serial tools order fuel cluster instance' w).2
  unfolding reconcile_host
  reconcile_host-Tidy instance' w =
      elim instance'.spec.host.local
          as (λ l.
            instance'.spec.host.local ≡ l
            → Tidy log w (reconcile_host m serial tools order fuel cluster instance' w).2) [
              | some host ↦ λ e.
                  rw (e, reconcile_host)
                    (local_ended-Tidy w _ (
                      reconcile_local-Tidy m serial tools order fuel log laws instance'.generation
                        log_names host instance'.status w))
              | none ↦ λ e.
                  elim instance'.spec.host.ssh
                      as (λ l.
                        instance'.spec.host.ssh ≡ l
                        → Tidy log w
                            (reconcile_host m serial tools order fuel cluster instance' w).2) [
                              | some ssh ↦ λ f. rw (e, reconcile_host, f) (Tidy-same log refl)
                              | none ↦ λ f. rw (e, reconcile_host, f) (Tidy-same log refl)
                            ]
                    refl
            ]
        refl

  reconcile_instance-Tidy :
      (instance' : Jumperless m.Conditions) (w : serial.World)
      → Tidy log w (reconcile_instance m serial tools order fuel cluster instance' w).2
  unfolding reconcile_instance
  reconcile_instance-Tidy instance' w =
      elim (m.find_ready instance'.status.conditions)
          as (λ c.
            m.find_ready instance'.status.conditions ≡ c
            → Tidy log w (reconcile_instance m serial tools order fuel cluster instance' w).2) [
              | none ↦ λ e. rw (e, reconcile_instance) (Tidy-same log refl)
              | some ready ↦ λ e. rw (e, reconcile_instance) (reconcile_host-Tidy instance' w)
            ]
        refl

  log-patched :
      (r : Bool × serial.World) → log (patched m serial tools order fuel cluster r).1 ≡ log r.1
  log-patched (true, w) = refl
  log-patched (false, w) = refl

  log-patch_status :
      (instance' : Jumperless m.Conditions) (status : JumperlessStatus m.Conditions)
      (w : serial.World)
      → log (patch_status m serial tools order fuel cluster instance' status w).1 ≡ log w
  unfolding patch_status
  log-patch_status instance' status w =
      elim (cluster.to_unstructured (status_instance instance' status))
          as (λ o.
            cluster.to_unstructured (status_instance instance' status) ≡ o
            → log (patch_status m serial tools order fuel cluster instance' status w).1 ≡ log w) [
              | none ↦ λ e. rw (e, patch_status) refl
              | some u ↦
                  λ e. rw (e, patch_status) (log-patched (cluster.patch u w) ∙ quiet.log_patch u w)
            ]
        refl

  then_patch-Tidy :
      (instance' : Jumperless m.Conditions) (w : serial.World)
      (r : Turn m serial tools order fuel cluster)
      → Tidy log w r.2
      → Tidy log w (then_patch m serial tools order fuel cluster instance' r).1
  then_patch-Tidy instance' w (e, status, w1) h =
      Tidy-trans log h (Tidy-same log (log-patch_status instance' status w1))

  reconcile_fetched-Tidy :
      (r : Fetched m.Conditions × serial.World)
      → Tidy log r.1 (reconcile_fetched m serial tools order fuel cluster r).1
  reconcile_fetched-Tidy (found instance', w) =
      then_patch-Tidy instance' w (reconcile_instance m serial tools order fuel cluster instance' w)
        (reconcile_instance-Tidy instance' w)
  reconcile_fetched-Tidy (not_found, w) = Tidy-same log refl
  reconcile_fetched-Tidy (unavailable, w) = Tidy-same log refl

  -- On every path `Reconcile` closes each port that it opens, in the search for a board and behind
  -- it, whatever fails in between: the log of openings and closings grows by calls in which each
  -- port that is opened is closed later on. Neither the client of the cluster nor listing the ports
  -- opens or closes one.
  pub reconcile-Tidy :
      (name : Bytes × Bytes) (w : serial.World)
      → Tidy log w (reconcile m serial tools order fuel cluster name w).1
  unfolding reconcile
  reconcile-Tidy name w =
      Tidy-trans log (Tidy-same log (quiet.log_fetch name w))
        (reconcile_fetched-Tidy (cluster.fetch name w))
