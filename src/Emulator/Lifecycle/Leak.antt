-- ===== src/Emulator/Lifecycle/Leak.antt =====
-- The terminals that a failing `Start` leaves open.
use k8s_jumperless.Base.Calls.{Call, acquired}
use k8s_jumperless.Base.{false, some, List, [], ◌∷◌, ◌++◌, ◌≡◌, refl, sym, ap, ◌∙◌}
use k8s_jumperless.Emulator.Lifecycle.{new_emulator, nonblock_failed, start}
use k8s_jumperless.Emulator.Mappings.{EmulatorConfig}
use k8s_jumperless.Host.Logged.{IsLogged}
use k8s_jumperless.Host.{Host}
use mathlib.Core.List.{append_assoc}
use k8s_jumperless.Emulator.Lifecycle.Cleanup.{log-try_cleanup_new, removals}

module _ {W R : Type 0} (host : Host W) (config : EmulatorConfig) (log : W → List (Call R))
    (laws : IsLogged host log) where
  -- When the pseudo terminal cannot be made non-blocking, `Start` of a new emulator fails and
  -- closes neither of the two terminals that it has opened: all that it calls is the removal of
  -- the configured path, if there is one, which it has not linked.
  pub start_leaks :
      (w w1 w2 : W) (p v : host.Tty)
      → host.open_pty w ≡ (some (p, v), w1)
      → host.set_nonblock p w1 ≡ (false, w2)
      → let result = start host config (new_emulator host config) w in
        (result.0 ≡ some nonblock_failed)
        × (log result.2
            ≡ log w
              ++ acquired (laws.tty p)
                ∷ acquired (laws.tty v)
                ∷ removals host config log laws config.virtual_port)
  unfolding start
  start_leaks w w1 w2 p v opened blocking =
      let acquires : log w1 ≡ log w ++ acquired (laws.tty p) ∷ acquired (laws.tty v) ∷ [] =
        ap (λ r. log r.1) (sym opened) ∙ laws.log_open w p v (ap (λ r. r.0) opened) in
      let unseen : log w2 ≡ log w1 = ap (λ r. log r.1) (sym blocking) ∙ laws.log_nonblock p w1 in
      rw (opened, start, blocking)
        (
          refl,
          log-try_cleanup_new host config log laws w2
              ∙ ap (λ l. l ++ removals host config log laws config.virtual_port) (unseen ∙ acquires)
              ∙ append_assoc (log w) _ _,
        )
