-- ===== src/Proxy/Run/Recorded.antt =====
-- What `Proxy.Run` returns is a recording.
use k8s_jumperless.Base.{
  ℕ, Bool, true, false, Bool-cases, inl, inr, Option, none, some, List, [], ◌∷◌, ◌≡◌, refl, sym, ap,
  ◌∙◌, Bytes, Result, ok, err,
}
use k8s_jumperless.Device.Board.{FindError, Tools}
use k8s_jumperless.Device.Port.{JumperlessPort, Serial}
use k8s_jumperless.Emulator.Lifecycle.{needs_link}
use k8s_jumperless.Host.{Host, Removal, removed, absent, not_removed}
use k8s_jumperless.Proxy.Config.{ProxyConfig}
use k8s_jumperless.Proxy.Quoting.{Quoting}
use k8s_jumperless.Proxy.Recorder.{Event, run}
use k8s_jumperless.Proxy.Run.{
  Outcome, Session, close_real, close_ttys, recorded, remove_link, on_detected, on_nonblock,
  on_open, on_pty, on_removal, on_reset_input, on_reset_output, on_symlink, proxied, run_proxy,
  with_link, with_real,
}

-- The events that the recorder has received last, as a part of the world. The goroutines set it
-- when they end, if they do, and what is closed or removed keeps it.
pub record IsHeard (serial : Serial) (host : Host serial.World)
    (session : Session host serial.Handle) (heard : serial.World → List Event) : Type 0 where
  pub hears :
      (p : host.Tty) (h : serial.Handle) (w : serial.World) (events : List Event)
      (w1 : serial.World)
      → session.until_ended p h w ≡ some (events, w1)
      → heard w1 ≡ events
  pub keeps_close :
      (h : serial.Handle) (w : serial.World) → heard (serial.close_serial h w).1 ≡ heard w
  pub keeps_close_tty : (t : host.Tty) (w : serial.World) → heard (host.close_tty t w).1 ≡ heard w
  pub keeps_remove : (path : Bytes) (w : serial.World) → heard (host.remove path w).1 ≡ heard w

module _ (serial : Serial) (host : Host serial.World) (tools : Tools serial) (q : Quoting)
    (session : Session host serial.Handle) (fuel : ℕ) (config : ProxyConfig)
    (heard : serial.World → List Event) (laws : IsHeard serial host session heard) where
  -- Nothing, an error, or what the recorder makes of the events.
  abbrev pub IsRecorded : Outcome serial host tools q session fuel config → Type 0
  IsRecorded none = Unit
  IsRecorded (some (err e, w)) = Unit
  IsRecorded (some (ok ms, w)) = ms ≡ run q (heard w)

  close_real-IsRecorded :
      (h : serial.Handle) (o : Outcome serial host tools q session fuel config)
      → IsRecorded o
      → IsRecorded (close_real serial host tools q session fuel config h o)
  close_real-IsRecorded h none i = tt
  close_real-IsRecorded h (some (err e, w)) i = tt
  close_real-IsRecorded h (some (ok ms, w)) i = i ∙ ap (run q) (sym (laws.keeps_close h w))

  remove_link-IsRecorded :
      (o : Outcome serial host tools q session fuel config)
      → IsRecorded o
      → IsRecorded (remove_link serial host tools q session fuel config o)
  remove_link-IsRecorded none i = tt
  remove_link-IsRecorded (some (err e, w)) i = tt
  remove_link-IsRecorded (some (ok ms, w)) i =
      i ∙ ap (run q) (sym (laws.keeps_remove config.virtual_port w))

  close_ttys-IsRecorded :
      (p v : host.Tty) (o : Outcome serial host tools q session fuel config)
      → IsRecorded o
      → IsRecorded (close_ttys serial host tools q session fuel config p v o)
  close_ttys-IsRecorded p v none i = tt
  close_ttys-IsRecorded p v (some (err e, w)) i = tt
  close_ttys-IsRecorded p v (some (ok ms, w)) i =
      i ∙ ap (run q) (sym (laws.keeps_close_tty v _ ∙ laws.keeps_close_tty p w))

  recorded-IsRecorded :
      (r : Option (List Event × serial.World))
      → ((events : List Event) (w : serial.World) → r ≡ some (events, w) → heard w ≡ events)
      → IsRecorded (recorded serial host tools q session fuel config r)
  recorded-IsRecorded none f = tt
  recorded-IsRecorded (some (events, w)) f = ap (run q) (sym (f events w refl))

  on_reset_output-IsRecorded :
      (p : host.Tty) (h : serial.Handle) (r : Bool × serial.World)
      → IsRecorded (on_reset_output serial host tools q session fuel config p h r)
  unfolding proxied
  on_reset_output-IsRecorded p h (false, w) = tt
  on_reset_output-IsRecorded p h (true, w) = recorded-IsRecorded _ (laws.hears p h _)

  on_reset_input-IsRecorded :
      (p : host.Tty) (h : serial.Handle) (r : Bool × serial.World)
      → IsRecorded (on_reset_input serial host tools q session fuel config p h r)
  on_reset_input-IsRecorded p h (false, w) = tt
  on_reset_input-IsRecorded p h (true, w) = on_reset_output-IsRecorded p h _

  on_open-IsRecorded :
      (p : host.Tty) (r : Option serial.Handle × serial.World)
      → IsRecorded (on_open serial host tools q session fuel config p r)
  on_open-IsRecorded p (none, w) = tt
  on_open-IsRecorded p (some h, w) = close_real-IsRecorded h _ (on_reset_input-IsRecorded p h _)

  on_detected-IsRecorded :
      (p : host.Tty) (r : Result FindError (JumperlessPort serial) × serial.World)
      → IsRecorded (on_detected serial host tools q session fuel config p r)
  on_detected-IsRecorded p (err e, w) = tt
  on_detected-IsRecorded p (ok j, w) = on_open-IsRecorded p _

  with_real-IsRecorded :
      (p : host.Tty) (w : serial.World)
      → IsRecorded (with_real serial host tools q session fuel config p w)
  unfolding with_real
  with_real-IsRecorded p w =
      elim config.real_port
          as (λ o.
            config.real_port ≡ o
            → IsRecorded (with_real serial host tools q session fuel config p w)) [
              | [] ↦ λ e. rw (e, with_real) (on_detected-IsRecorded p _)
              | c ∷ port ↦ λ e. rw (e, with_real) (on_open-IsRecorded p _)
            ]
        refl

  on_symlink-IsRecorded :
      (p : host.Tty) (r : Bool × serial.World)
      → IsRecorded (on_symlink serial host tools q session fuel config p r)
  on_symlink-IsRecorded p (false, w) = tt
  on_symlink-IsRecorded p (true, w) = remove_link-IsRecorded _ (with_real-IsRecorded p w)

  on_removal-IsRecorded :
      (p v : host.Tty) (r : Removal × serial.World)
      → IsRecorded (on_removal serial host tools q session fuel config p v r)
  on_removal-IsRecorded p v (not_removed, w) = tt
  on_removal-IsRecorded p v (removed, w) = on_symlink-IsRecorded p _
  on_removal-IsRecorded p v (absent, w) = on_symlink-IsRecorded p _

  with_link-IsRecorded :
      (p v : host.Tty) (w : serial.World)
      → IsRecorded (with_link serial host tools q session fuel config p v w)
  unfolding with_link
  with_link-IsRecorded p v w =
      elim (Bool-cases (needs_link config.virtual_port (host.tty_name v))) [
        | inl e ↦ rw (e, with_link) (on_removal-IsRecorded p v _)
        | inr e ↦ rw (e, with_link) (with_real-IsRecorded p w)
      ]

  on_nonblock-IsRecorded :
      (p v : host.Tty) (r : Bool × serial.World)
      → IsRecorded (on_nonblock serial host tools q session fuel config p v r)
  on_nonblock-IsRecorded p v (false, w) = tt
  on_nonblock-IsRecorded p v (true, w) = with_link-IsRecorded p v w

  on_pty-IsRecorded :
      (r : Option (host.Tty × host.Tty) × serial.World)
      → IsRecorded (on_pty serial host tools q session fuel config r)
  on_pty-IsRecorded (none, w) = tt
  on_pty-IsRecorded (some (p, v), w) = close_ttys-IsRecorded p v _ (on_nonblock-IsRecorded p v _)

  pub run_proxy-IsRecorded :
      (w : serial.World) → IsRecorded (run_proxy serial host tools q session fuel config w)
  unfolding run_proxy
  run_proxy-IsRecorded w = on_pty-IsRecorded (host.open_pty w)
