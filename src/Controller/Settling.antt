-- ===== src/Controller/Settling.antt =====
-- Two passes of `Reconcile`.
use k8s_jumperless.Api.Types.{
  Jumperless, JumperlessConfigSection, JumperlessHostLocal, JumperlessStatus,
}
use k8s_jumperless.Base.{
  ℕ, true, false, not, none, some, List, ◌≡◌, refl, ap, ◌∙◌, arith, ℤ, pos, negsuc, ok,
}
use k8s_jumperless.Controller.Patched.{IsSettled, local_ended-IsSettled}
use k8s_jumperless.Controller.Ready.{IsMeta, reconcile_local-Ready, reconcile_local-generation}
use k8s_jumperless.Controller.Reconcile.{Cluster, local_ended, reconcile_host, reconcile_instance}
use k8s_jumperless.Controller.{
  ConditionStatus, Ended, Meta, deref_bytes, deref_int, is_false, is_stale, is_true, is_unknown,
  same_generation,
}
use k8s_jumperless.Device.Board.{Tools, new_jumperless}
use k8s_jumperless.Device.Port.{JumperlessPort, Serial, open_port}
use k8s_jumperless.Local.Config.{ConfigMap}

same_generation_refl : (generation : ℤ) → same_generation generation generation ≡ true
same_generation_refl (pos n) = ground arith
same_generation_refl (negsuc n) = ground arith

-- A condition for the generation is not stale, whatever its status.
settled-not_stale :
    (s : ConditionStatus) (generation : ℤ) → is_stale (some (s, generation)) generation ≡ false
settled-not_stale is_true generation = ap not (same_generation_refl generation)
settled-not_stale is_false generation = refl
settled-not_stale is_unknown generation = refl

module _ (m : Meta) (serial : Serial) (tools : Tools serial)
    (order : ConfigMap → List JumperlessConfigSection) (fuel : ℕ) (meta : IsMeta m)
    (cluster : Cluster m serial) (instance' : Jumperless m.Conditions) (host : JumperlessHostLocal)
    (is_local : instance'.spec.host.local ≡ some host) where
  -- With a local host, and whatever fails, the status has a condition for the generation.
  once-IsSettled :
      (w : serial.World)
      → IsSettled m serial tools order fuel meta cluster instance'.generation
          (reconcile_instance m serial tools order fuel cluster instance' w).1
  unfolding reconcile_instance reconcile_host
  once-IsSettled w =
      elim (m.find_ready instance'.status.conditions)
          as (λ r.
            m.find_ready instance'.status.conditions ≡ r
            → IsSettled m serial tools order fuel meta cluster instance'.generation
                (reconcile_instance m serial tools order fuel cluster instance' w).1) [
                  | none ↦ λ e.
                      rw (e, reconcile_instance)
                        (is_unknown, meta.find-set instance'.status.conditions _)
                  | some r ↦ λ e.
                      rw (e, reconcile_instance, reconcile_host, is_local)
                        (local_ended-IsSettled m serial tools order fuel meta cluster
                          instance'.generation _
                          (reconcile_local-generation m serial tools order fuel meta
                            instance'.generation host instance'.status w))
                ]
        refl

  status-local_ended :
      (e : Ended m serial tools order fuel)
      → (local_ended m serial tools order fuel cluster e).1 ≡ e.1
  status-local_ended (none, status, w) = refl
  status-local_ended (some e, status, w) = refl

  -- A pass that is not the first one and finds the board.
  settled_pass-Ready :
      (s : ConditionStatus) (w w1 w2 : serial.World) (j k : JumperlessPort serial)
      → m.find_ready instance'.status.conditions ≡ some (s, instance'.generation)
      → new_jumperless serial tools fuel (deref_bytes host.port) (deref_int host.baud_rate) w
        ≡ (ok j, w1)
      → open_port serial j w1 ≡ (ok k, w2)
      → m.find_ready (reconcile_instance m serial tools order fuel cluster instance' w).1.conditions
        ≡ some (is_true, instance'.generation)
  unfolding reconcile_instance reconcile_host
  settled_pass-Ready s w w1 w2 j k settled found opened =
      let fresh : is_stale (m.find_ready instance'.status.conditions) instance'.generation ≡ false =
        ap (λ c. is_stale c instance'.generation) settled
        ∙ settled-not_stale s instance'.generation in
      let ready =
        reconcile_local-Ready m serial tools order fuel meta instance'.generation host
          instance'.status w j w1 k w2 fresh found opened in
      rw (settled, reconcile_instance, reconcile_host, is_local)
        (ap (λ (status : JumperlessStatus m.Conditions). m.find_ready status.conditions)
            (status-local_ended _)
          ∙ ready)

module _ (m : Meta) (serial : Serial) (tools : Tools serial)
    (order : ConfigMap → List JumperlessConfigSection) (fuel : ℕ) (meta : IsMeta m)
    (cluster : Cluster m serial) where
  -- A second pass over a resource with a local host, which finds the status that the first pass has
  -- left, makes the `Ready` condition true for the generation if it finds the board and opens its
  -- port, whatever the condition was at first and however the first pass ended.
  -- `FindStatusCondition` finds what `SetStatusCondition` has set.
  pub reconcile_twice-Ready :
      (instance' : Jumperless m.Conditions) (host : JumperlessHostLocal) (w w1 w2 w3 : serial.World)
      (j k : JumperlessPort serial)
      → instance'.spec.host.local ≡ some host
      → new_jumperless serial tools fuel (deref_bytes host.port) (deref_int host.baud_rate) w1
        ≡ (ok j, w2)
      → open_port serial j w2 ≡ (ok k, w3)
      → let first_pass = reconcile_instance m serial tools order fuel cluster instance' w in
        let again = record instance' { status = first_pass.1 } in
        m.find_ready (reconcile_instance m serial tools order fuel cluster again w1).1.conditions
        ≡ some (is_true, instance'.generation)
  reconcile_twice-Ready instance' host w w1 w2 w3 j k is_local found opened =
      let (s, settled) =
        once-IsSettled m serial tools order fuel meta cluster instance' host is_local w in
      let again = record instance' {
        status = (reconcile_instance m serial tools order fuel cluster instance' w).1;
      } in
      settled_pass-Ready m serial tools order fuel meta cluster again host is_local s w1 w2 w3 j k
        settled found opened
