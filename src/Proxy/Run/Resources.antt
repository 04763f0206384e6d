-- ===== src/Proxy/Run/Resources.antt =====
-- What `Proxy.Run` has released when it returns.
use k8s_jumperless.Base.Calls.{
  Call, Tidy, acquired, released, Tidy-around, Tidy-bracket, Tidy-release, Tidy-same, Tidy-trans,
}
use k8s_jumperless.Base.{
  ℕ, Bool, true, false, Bool-cases, inl, inr, Option, none, some, List, [], ◌∷◌, ◌++◌, ◌≡◌, refl,
  ap, ◌∙◌, Bytes, Result, ok, err,
}
use k8s_jumperless.Device.Board.Tidy.{new_jumperless-Tidy}
use k8s_jumperless.Device.Board.{FindError, Tools, new_jumperless}
use k8s_jumperless.Device.Port.{JumperlessPort, Serial}
use k8s_jumperless.Device.Port.Tidy.{IsLogged}
use k8s_jumperless.Emulator.Lifecycle.{needs_link}
use k8s_jumperless.Host.Logged
use k8s_jumperless.Host.{Host, Removal, removed, absent, not_removed}
use k8s_jumperless.Proxy.Config.{ProxyConfig}
use k8s_jumperless.Proxy.Quoting.{Quoting}
use k8s_jumperless.Emulator.Mappings.{Mappings}
use k8s_jumperless.Proxy.Recorder.{Event}
use k8s_jumperless.Proxy.Run.{
  Outcome, RunError, Session, close_real, close_ttys, recorded, remove_link, on_detected,
  on_nonblock, on_open, on_pty, on_removal, on_reset_input, on_reset_output, on_symlink, proxied,
  run_proxy, with_link, with_real,
}
use mathlib.Core.List.{append_assoc}
use mathlib.Core.Path.{subst}

-- The goroutines open nothing and close nothing.
pub record IsQuiet {W H R : Type 0} {host : Host W} (session : Session host H)
    (log : W → List (Call R)) : Type 0 where
  pub log_done : (p : host.Tty) (h : H) (w : W) → log (session.until_done p h w) ≡ log w
  pub log_unblocked : (p : host.Tty) (h : H) (w : W) → log (session.until_unblocked p h w) ≡ log w
  pub log_ended :
      (p : host.Tty) (h : H) (w : W) (events : List Event) (w1 : W)
      → session.until_ended p h w ≡ some (events, w1)
      → log w1 ≡ log w

module _ (serial : Serial) (host : Host serial.World) (tools : Tools serial) (q : Quoting)
    (session : Session host serial.Handle) (fuel : ℕ) (config : ProxyConfig) {R : Type 0}
    (log : serial.World → List (Call R)) (laws : IsLogged serial log)
    (ttys : Logged.IsLogged host log) (quiet : IsQuiet session log)
    (log_names : (w : serial.World) → log (tools.port_names w).1 ≡ log w) where
  -- If `Run` returns with the world `w'`, the log of `w'` grows from that of `w` by tidy calls.
  abbrev ReturnsTidy : serial.World → Outcome serial host tools q session fuel config → Type 0
  ReturnsTidy w none = Unit
  ReturnsTidy w (some (r, w')) = Tidy log w w'

  after :
      (w w1 : serial.World) (o : Outcome serial host tools q session fuel config)
      → Tidy log w w1
      → ReturnsTidy w1 o
      → ReturnsTidy w o
  after w w1 none first next = tt
  after w w1 (some (r, w')) first next = Tidy-trans log first next

  close_real-ReturnsTidy :
      (h : serial.Handle) (w w1 : serial.World)
      (o : Outcome serial host tools q session fuel config)
      → log w1 ≡ log w ++ acquired (laws.port h) ∷ []
      → ReturnsTidy w1 o
      → ReturnsTidy w (close_real serial host tools q session fuel config h o)
  close_real-ReturnsTidy h w w1 none e next = tt
  close_real-ReturnsTidy h w w1 (some (r, w')) e next =
      Tidy-bracket log (laws.port h) e next (laws.log_close h w')

  remove_link-ReturnsTidy :
      (w w1 : serial.World) (o : Outcome serial host tools q session fuel config)
      → log w1 ≡ log w ++ acquired (ttys.link config.virtual_port) ∷ []
      → ReturnsTidy w1 o
      → ReturnsTidy w (remove_link serial host tools q session fuel config o)
  remove_link-ReturnsTidy w w1 none e next = tt
  remove_link-ReturnsTidy w w1 (some (r, w')) e next =
      Tidy-bracket log (ttys.link config.virtual_port) e next
        (ttys.log_remove config.virtual_port w')

  close_ttys-ReturnsTidy :
      (p v : host.Tty) (w w1 : serial.World) (o : Outcome serial host tools q session fuel config)
      → log w1 ≡ log w ++ acquired (ttys.tty p) ∷ acquired (ttys.tty v) ∷ []
      → ReturnsTidy w1 o
      → ReturnsTidy w (close_ttys serial host tools q session fuel config p v o)
  close_ttys-ReturnsTidy p v w w1 none e next = tt
  close_ttys-ReturnsTidy p v w w1 (some (r, w')) e next =
      Tidy-around log (ttys.tty p) (ttys.tty v) e next (
        ttys.log_close v (host.close_tty p w').1
        ∙ ap (λ l. l ++ released (ttys.tty v) ∷ []) (ttys.log_close p w')
        ∙ append_assoc (log w') _ _)

  recorded-ReturnsTidy :
      (w : serial.World) (r : Option (List Event × serial.World))
      → ((events : List Event) (w1 : serial.World) → r ≡ some (events, w1) → log w1 ≡ log w)
      → ReturnsTidy w (recorded serial host tools q session fuel config r)
  recorded-ReturnsTidy w none f = tt
  recorded-ReturnsTidy w (some (events, w1)) f = Tidy-same log (f events w1 refl)

  proxied-ReturnsTidy :
      (p : host.Tty) (h : serial.Handle) (w : serial.World)
      → ReturnsTidy w (proxied serial host tools q session fuel config p h w)
  unfolding proxied
  proxied-ReturnsTidy p h w =
      let w1 = session.until_done p h w in
      let w2 = (host.close_tty p w1).1 in
      let w3 = session.until_unblocked p h w2 in
      let w4 = (serial.close_serial h w3).1 in
      after w w4 _
        (Tidy-trans log (Tidy-same log (quiet.log_done p h w)) (
          Tidy-trans log (Tidy-release log (ttys.tty p) (ttys.log_close p w1)) (
            Tidy-trans log (Tidy-same log (quiet.log_unblocked p h w2))
              (Tidy-release log (laws.port h) (laws.log_close h w3)))))
        (recorded-ReturnsTidy w4 _ (quiet.log_ended p h w4))

  on_reset_output-ReturnsTidy :
      (p : host.Tty) (h : serial.Handle) (r : Bool × serial.World)
      → ReturnsTidy r.1 (on_reset_output serial host tools q session fuel config p h r)
  on_reset_output-ReturnsTidy p h (false, w) = Tidy-same log refl
  on_reset_output-ReturnsTidy p h (true, w) = proxied-ReturnsTidy p h w

  on_reset_input-ReturnsTidy :
      (p : host.Tty) (h : serial.Handle) (r : Bool × serial.World)
      → ReturnsTidy r.1 (on_reset_input serial host tools q session fuel config p h r)
  on_reset_input-ReturnsTidy p h (false, w) = Tidy-same log refl
  on_reset_input-ReturnsTidy p h (true, w) =
      after w _ _ (Tidy-same log (laws.log_reset_output h w)) (on_reset_output-ReturnsTidy p h _)

  on_open-ReturnsTidy :
      (p : host.Tty) (name : Bytes) (w : serial.World)
      → ReturnsTidy w (
          on_open serial host tools q session fuel config p
            (serial.open_serial name config.baud_rate w))
  on_open-ReturnsTidy p name w =
      go (serial.open_serial name config.baud_rate w) (laws.log_open name config.baud_rate w)
        (laws.log_no_open name config.baud_rate w)
    where
      go :
          (r : Option serial.Handle × serial.World)
          → ((h : serial.Handle) → r.0 ≡ some h → log r.1 ≡ log w ++ acquired (laws.port h) ∷ [])
          → (r.0 ≡ none → log r.1 ≡ log w)
          → ReturnsTidy w (on_open serial host tools q session fuel config p r)
      go (none, w1) f g = Tidy-same log (g refl)
      go (some h, w1) f g = close_real-ReturnsTidy h w w1 _ (f h refl) (
          after w1 _ _ (Tidy-same log (laws.log_reset_input h w1))
            (on_reset_input-ReturnsTidy p h _))

  on_detected-ReturnsTidy :
      (p : host.Tty) (r : Result FindError (JumperlessPort serial) × serial.World)
      → ReturnsTidy r.1 (on_detected serial host tools q session fuel config p r)
  on_detected-ReturnsTidy p (err e, w) = Tidy-same log refl
  on_detected-ReturnsTidy p (ok j, w) = on_open-ReturnsTidy p j.port_name w

  with_real-ReturnsTidy :
      (p : host.Tty) (w : serial.World)
      → ReturnsTidy w (with_real serial host tools q session fuel config p w)
  unfolding with_real
  with_real-ReturnsTidy p w =
      elim config.real_port
          as (λ o.
            config.real_port ≡ o
            → ReturnsTidy w (with_real serial host tools q session fuel config p w)) [
              | [] ↦ λ e.
                  rw (e, with_real)
                    (after w _ _
                      (new_jumperless-Tidy serial log laws tools log_names fuel [] config.baud_rate
                        w)
                      (on_detected-ReturnsTidy p
                        (new_jumperless serial tools fuel [] config.baud_rate w)))
              | c ∷ port ↦ λ e. rw (e, with_real) (on_open-ReturnsTidy p (c ∷ port) w)
            ]
        refl

  on_symlink-ReturnsTidy :
      (p : host.Tty) (w : serial.World) (r : Bool × serial.World)
      → (r.0 ≡ true → log r.1 ≡ log w ++ acquired (ttys.link config.virtual_port) ∷ [])
      → (r.0 ≡ false → log r.1 ≡ log w)
      → ReturnsTidy w (on_symlink serial host tools q session fuel config p r)
  on_symlink-ReturnsTidy p w (false, w1) f g = Tidy-same log (g refl)
  on_symlink-ReturnsTidy p w (true, w1) f g =
      remove_link-ReturnsTidy w w1 _ (f refl) (with_real-ReturnsTidy p w1)

  on_removal-ReturnsTidy :
      (p v : host.Tty) (w : serial.World) (r : Removal × serial.World)
      → log r.1 ≡ log w ++ released (ttys.link config.virtual_port) ∷ []
      → ReturnsTidy w (on_removal serial host tools q session fuel config p v r)
  on_removal-ReturnsTidy p v w (removal, w1) f =
      let first = Tidy-release log (ttys.link config.virtual_port) f in
      let next =
        on_symlink-ReturnsTidy p w1 (host.symlink (host.tty_name v) config.virtual_port w1)
          (ttys.log_link (host.tty_name v) config.virtual_port w1)
          (ttys.log_no_link (host.tty_name v) config.virtual_port w1) in
      elim removal
        as (λ x. ReturnsTidy w (on_removal serial host tools q session fuel config p v (x, w1))) [
          | not_removed ↦ first
          | removed ↦ after w w1 _ first next
          | absent ↦ after w w1 _ first next
        ]

  with_link-ReturnsTidy :
      (p v : host.Tty) (w : serial.World)
      → ReturnsTidy w (with_link serial host tools q session fuel config p v w)
  unfolding with_link
  with_link-ReturnsTidy p v w =
      elim (Bool-cases (needs_link config.virtual_port (host.tty_name v))) [
        | inl e ↦
            rw (e, with_link)
              (on_removal-ReturnsTidy p v w (host.remove config.virtual_port w)
                (ttys.log_remove config.virtual_port w))
        | inr e ↦ rw (e, with_link) (with_real-ReturnsTidy p w)
      ]

  on_nonblock-ReturnsTidy :
      (p v : host.Tty) (r : Bool × serial.World)
      → ReturnsTidy r.1 (on_nonblock serial host tools q session fuel config p v r)
  on_nonblock-ReturnsTidy p v (false, w) = Tidy-same log refl
  on_nonblock-ReturnsTidy p v (true, w) = with_link-ReturnsTidy p v w

  on_pty-ReturnsTidy :
      (w : serial.World) (r : Option (host.Tty × host.Tty) × serial.World)
      → ((p v : host.Tty)
          → r.0 ≡ some (p, v)
          → log r.1 ≡ log w ++ acquired (ttys.tty p) ∷ acquired (ttys.tty v) ∷ [])
      → (r.0 ≡ none → log r.1 ≡ log w)
      → ReturnsTidy w (on_pty serial host tools q session fuel config r)
  on_pty-ReturnsTidy w (none, w1) f g = Tidy-same log (g refl)
  on_pty-ReturnsTidy w (some (p, v), w1) f g =
      close_ttys-ReturnsTidy p v w w1 _ (f p v refl)
        (after w1 _ _ (Tidy-same log (ttys.log_nonblock p w1)) (on_nonblock-ReturnsTidy p v _))

  -- Whenever `Run` returns, with a recording or with an error, it has closed both terminals and each
  -- port that it opened, and removed the link that it made: the log of openings, links, closings and
  -- removals grows by calls in which each resource that is acquired is released later on. The
  -- goroutines open and close nothing, and neither does listing the ports. Nothing is said of a run
  -- that never returns because a goroutine waits for ever: no deferred function is called in it.
  pub run_proxy-Tidy :
      (w w' : serial.World) (r : Result RunError Mappings)
      → run_proxy serial host tools q session fuel config w ≡ some (r, w')
      → Tidy log w w'
  unfolding run_proxy
  run_proxy-Tidy w w' r e =
      subst (ReturnsTidy w) e
        (on_pty-ReturnsTidy w (host.open_pty w) (ttys.log_open w) (ttys.log_no_open w))
