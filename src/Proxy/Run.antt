-- ===== src/Proxy/Run.antt =====
-- `Proxy.Run` of utils/internal/proxy/proxy.go: what it sets up, what is deferred, and the order in
-- which it shuts down. The three goroutines are with Proxy.Goroutines; here they are what happens to
-- the world between two calls of `Run`, and the events that the recorder has received in the end.
pub mod Recorded
pub mod Resources
use k8s_jumperless.Base.{
  ℕ, Bool, true, false, Option, none, some, List, [], ◌∷◌, Bytes, Result, ok, err,
}
use k8s_jumperless.Device.Board.{FindError, Tools, new_jumperless}
use k8s_jumperless.Device.Port.{JumperlessPort, Serial}
use k8s_jumperless.Emulator.Lifecycle.{needs_link}
use k8s_jumperless.Emulator.Mappings.{Mappings}
use k8s_jumperless.Host.{Host, Removal, removed, absent, not_removed}
use k8s_jumperless.Proxy.Config.{ProxyConfig}
use k8s_jumperless.Proxy.Quoting.{Quoting}
use k8s_jumperless.Proxy.Recorder.{Event, run}

pub data RunError : Type 0 where
  pty_failed nonblock_failed remove_failed link_failed : RunError
  not_detected : FindError → RunError
  real_open_failed reset_input_failed reset_output_failed : RunError

-- The goroutines until the context is done and 100 ms longer, from there on for 100 ms, and until
-- `wg.Wait` returns, which it does not for `none`: a goroutine may wait for ever, and then neither
-- does `Run` return.
pub record Session {W : Type 0} (host : Host W) (Handle : Type 0) : Type 0 where
  pub until_done : host.Tty → Handle → W → W
  pub until_unblocked : host.Tty → Handle → W → W
  pub until_ended : host.Tty → Handle → W → Option (List Event × W)

module _ (serial : Serial) (host : Host serial.World) (tools : Tools serial) (q : Quoting)
    (session : Session host serial.Handle) (fuel : ℕ) (config : ProxyConfig) where
  -- What `Run` returns, with the world behind it, or `none` if it never returns.
  abbrev pub Outcome : Type 0
  Outcome = Option (Result RunError Mappings × serial.World)

  -- The deferred functions, which log their errors. They are called only when `Run` returns.
  abbrev pub close_ttys : host.Tty → host.Tty → Outcome → Outcome
  close_ttys p v none = none
  close_ttys p v (some (r, w)) = some (r, (host.close_tty v (host.close_tty p w).1).1)

  abbrev pub remove_link : Outcome → Outcome
  remove_link none = none
  remove_link (some (r, w)) = some (r, (host.remove config.virtual_port w).1)

  abbrev pub close_real : serial.Handle → Outcome → Outcome
  close_real h none = none
  close_real h (some (r, w)) = some (r, (serial.close_serial h w).1)

  abbrev pub recorded : Option (List Event × serial.World) → Outcome
  recorded none = none
  recorded (some (events, w)) = some (ok (run q events), w)

  -- From the start of the goroutines to the recording, with the two closings in between.
  unfoldable pub proxied : host.Tty → serial.Handle → serial.World → Outcome
  unfolding run
  proxied p h w =
      let w1 = (host.close_tty p (session.until_done p h w)).1 in
      let w2 = (serial.close_serial h (session.until_unblocked p h w1)).1 in
      recorded (session.until_ended p h w2)

  abbrev pub on_reset_output : host.Tty → serial.Handle → Bool × serial.World → Outcome
  on_reset_output p h (false, w) = some (err reset_output_failed, w)
  on_reset_output p h (true, w) = proxied p h w

  abbrev pub on_reset_input : host.Tty → serial.Handle → Bool × serial.World → Outcome
  on_reset_input p h (false, w) = some (err reset_input_failed, w)
  on_reset_input p h (true, w) = on_reset_output p h (serial.reset_output_buffer h w)

  abbrev pub on_open : host.Tty → Option serial.Handle × serial.World → Outcome
  on_open p (none, w) = some (err real_open_failed, w)
  on_open p (some h, w) = close_real h (on_reset_input p h (serial.reset_input_buffer h w))

  abbrev pub on_detected :
      host.Tty → Result FindError (JumperlessPort serial) × serial.World → Outcome
  on_detected p (err e, w) = some (err (not_detected e), w)
  on_detected p (ok j, w) = on_open p (serial.open_serial j.port_name config.baud_rate w)

  -- From the mode of the real port on.
  unfoldable pub with_real : host.Tty → serial.World → Outcome
  unfolding proxied new_jumperless
  with_real p w = elim config.real_port [
    | [] ↦ on_detected p (new_jumperless serial tools fuel [] config.baud_rate w)
    | c ∷ port ↦ on_open p (serial.open_serial (c ∷ port) config.baud_rate w)
  ]

  abbrev pub on_symlink : host.Tty → Bool × serial.World → Outcome
  on_symlink p (false, w) = some (err link_failed, w)
  on_symlink p (true, w) = remove_link (with_real p w)

  abbrev pub on_removal : host.Tty → host.Tty → Removal × serial.World → Outcome
  on_removal p v (not_removed, w) = some (err remove_failed, w)
  on_removal p v (removed, w) = on_symlink p (host.symlink (host.tty_name v) config.virtual_port w)
  on_removal p v (absent, w) = on_symlink p (host.symlink (host.tty_name v) config.virtual_port w)

  -- From the symbolic link on.
  unfoldable pub with_link : host.Tty → host.Tty → serial.World → Outcome
  unfolding with_real
  with_link p v w = elim (needs_link config.virtual_port (host.tty_name v)) [
    | true ↦ on_removal p v (host.remove config.virtual_port w)
    | false ↦ with_real p w
  ]

  abbrev pub on_nonblock : host.Tty → host.Tty → Bool × serial.World → Outcome
  on_nonblock p v (false, w) = some (err nonblock_failed, w)
  on_nonblock p v (true, w) = with_link p v w

  abbrev pub on_pty : Option (host.Tty × host.Tty) × serial.World → Outcome
  on_pty (none, w) = some (err pty_failed, w)
  on_pty (some (p, v), w) = close_ttys p v (on_nonblock p v (host.set_nonblock p w))

  -- `Run`
  unfoldable pub run_proxy : serial.World → Outcome
  unfolding with_link
  run_proxy w = on_pty (host.open_pty w)
