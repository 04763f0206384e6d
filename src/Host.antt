-- ===== src/Host.antt =====
-- What the operating system does for the emulator and the proxy: pseudo terminals, from the package
-- github.com/creack/pty, and links, from os.
pub mod Logged
use k8s_jumperless.Base.{Bool, Option, Bytes}

-- `os.Remove`: the file is removed, there was none, or it could not be removed.
pub data Removal : Type 0 where
  removed absent not_removed : Removal

-- A `Bool` is true when there is no error.
pub record Host (W : Type 0) : Type 1 where
  pub Tty : Type 0
  pub open_pty : W → Option (Tty × Tty) × W
  pub set_nonblock : Tty → W → Bool × W
  pub tty_name : Tty → Bytes
  pub close_tty : Tty → W → Bool × W
  pub remove : Bytes → W → Removal × W
  pub symlink : Bytes → Bytes → W → Bool × W
