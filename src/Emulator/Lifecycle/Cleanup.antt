-- ===== src/Emulator/Lifecycle/Cleanup.antt =====
-- What `tryCleanup` releases.
use k8s_jumperless.Base.Calls.{Call, released}
use k8s_jumperless.Base.{Bool, some, List, [], ◌∷◌, ◌++◌, ◌≡◌, sym, ap, ◌∙◌, Bytes}
use k8s_jumperless.Emulator.Lifecycle.{new_emulator, remove_if_set, try_cleanup}
use k8s_jumperless.Emulator.Mappings.{EmulatorConfig}
use k8s_jumperless.Host.Logged.{IsLogged}
use k8s_jumperless.Host.{Host}
use mathlib.Core.List.{append-nil, append_assoc}

module _ {W R : Type 0} (host : Host W) (config : EmulatorConfig) (log : W → List (Call R))
    (laws : IsLogged host log) where
  -- The removal of the link, if a path is configured.
  abbrev pub removals : Bytes → List (Call R)
  removals [] = []
  removals (c ∷ port) = released (laws.link (c ∷ port)) ∷ []

  log-remove_if_set :
      (port : Bytes) (w : W) → log (remove_if_set host config port w) ≡ log w ++ removals port
  log-remove_if_set [] w = sym (append-nil _)
  log-remove_if_set (c ∷ port) w = laws.log_remove (c ∷ port) w

  -- Without terminals only the link is removed.
  pub log-try_cleanup_new :
      (w : W)
      → log (try_cleanup host config (new_emulator host config) w)
        ≡ log w ++ removals config.virtual_port
  unfolding try_cleanup
  log-try_cleanup_new w = log-remove_if_set config.virtual_port w

  -- With terminals both are closed, and the link is removed.
  pub log-try_cleanup :
      (p v : host.Tty) (running : Bool) (w : W)
      → log (
          try_cleanup host config
            (record { pseudo_tty = some p; virtual_tty = some v; running = running })
            w)
        ≡ log w ++ released (laws.tty p) ∷ released (laws.tty v) ∷ removals config.virtual_port
  unfolding try_cleanup
  log-try_cleanup p v running w =
      let w1 = (host.close_tty p w).1 in
      log-remove_if_set config.virtual_port (host.close_tty v w1).1
      ∙ ap (λ l. l ++ removals config.virtual_port)
          (laws.log_close v w1 ∙ ap (λ l. l ++ released (laws.tty v) ∷ []) (laws.log_close p w))
      ∙ append_assoc (log w ++ released (laws.tty p) ∷ []) _ _
      ∙ append_assoc (log w) _ _
