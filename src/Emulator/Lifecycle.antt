-- ===== src/Emulator/Lifecycle.antt =====
-- `New`, `Start`, `Stop`, `tryCleanup` and `GetPortName` of utils/internal/emulator/emulator.go.
pub mod Cleanup
pub mod Leak
pub mod Tidy
use k8s_jumperless.Base.{
  Bool, true, false, not, ◌&&◌, Option, none, some, List, [], ◌∷◌, if◌then◌else◌, Bytes, str_eq,
}
use k8s_jumperless.Emulator.Mappings.{EmulatorConfig}
use k8s_jumperless.Host.{Host, Removal, removed, absent, not_removed}

pub data StartError : Type 0 where
  pty_failed nonblock_failed remove_failed link_failed : StartError

-- `if VirtualPort != "" && VirtualPort != virtualTTY.Name()`
abbrev pub needs_link : Bytes → Bytes → Bool
needs_link port name = not (str_eq port []) && not (str_eq port name)

module _ {W : Type 0} (host : Host W) (config : EmulatorConfig) where
  -- `running` is whether `cancel` is set. The counters of the requests are with the handler.
  pub record Emulator : Type 0 where
    pub pseudo_tty : Option host.Tty
    pub virtual_tty : Option host.Tty
    pub running : Bool

  -- `New`
  abbrev pub new_emulator : Emulator
  new_emulator = record { pseudo_tty = none; virtual_tty = none; running = false }

  -- A closing whose error is only logged.
  abbrev pub close_if_set : Option host.Tty → W → W
  close_if_set none w = w
  close_if_set (some t) w = (host.close_tty t w).1

  abbrev pub remove_if_set : Bytes → W → W
  remove_if_set [] w = w
  remove_if_set (c ∷ port) w = (host.remove (c ∷ port) w).1

  -- `tryCleanup`
  unfoldable pub try_cleanup : Emulator → W → W
  try_cleanup e w =
      remove_if_set config.virtual_port (close_if_set e.virtual_tty (close_if_set e.pseudo_tty w))

  -- The error of `Start`, if any, with the emulator and the world behind it.
  abbrev pub Started : Type 0
  Started = Option StartError × Emulator × W

  abbrev pub failed : StartError → Emulator → W → Started
  failed error e w = (some error, e, try_cleanup e w)

  -- The goroutine of `handleRequests` is started.
  abbrev pub started : Emulator → W → Started
  started e w = (none, record e { running = true }, w)

  abbrev pub linked : Emulator → Bool × W → Started
  linked e (true, w) = started e w
  linked e (false, w) = failed link_failed e w

  abbrev pub unlinked : Emulator → host.Tty → Removal × W → Started
  unlinked e v (not_removed, w) = failed remove_failed e w
  unlinked e v (removed, w) = linked e (host.symlink (host.tty_name v) config.virtual_port w)
  unlinked e v (absent, w) = linked e (host.symlink (host.tty_name v) config.virtual_port w)

  -- The part of `Start` about the link.
  unfoldable pub start_link : Emulator → host.Tty → W → Started
  unfolding try_cleanup
  start_link e v w = elim (needs_link config.virtual_port (host.tty_name v)) [
    | true ↦ unlinked e v (host.remove config.virtual_port w)
    | false ↦ started e w
  ]

  abbrev pub nonblocking : Emulator → host.Tty → host.Tty → Bool × W → Started
  nonblocking e p v (false, w) = failed nonblock_failed e w
  nonblocking e p v (true, w) =
      start_link (record e { pseudo_tty = some p; virtual_tty = some v }) v w

  abbrev pub with_pty : Emulator → Option (host.Tty × host.Tty) × W → Started
  with_pty e (none, w) = (some pty_failed, e, w)
  with_pty e (some (p, v), w) = nonblocking e p v (host.set_nonblock p w)

  -- `Start`
  unfoldable pub start : Emulator → W → Started
  unfolding start_link
  start e w = with_pty e (host.open_pty w)

  -- `Stop`, which returns no error; `wait` is what the goroutine still does until it ends.
  unfoldable pub stop : Emulator → (W → W) → W → W
  unfolding try_cleanup
  stop e wait w = try_cleanup e (wait (if e.running then close_if_set e.pseudo_tty w else w))

  -- `GetPortName`
  unfoldable pub get_port_name : Emulator → Bytes
  get_port_name e = elim config.virtual_port [
    | c ∷ port ↦ c ∷ port
    | [] ↦ elim e.virtual_tty [ some v ↦ host.tty_name v | none ↦ [] ]
  ]
