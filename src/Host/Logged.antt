-- ===== src/Host/Logged.antt =====
-- A log of the calls that acquire and release terminals and links.
use k8s_jumperless.Base.Calls.{Call, acquired, released}
use k8s_jumperless.Base.{true, false, none, some, List, [], ◌∷◌, ◌++◌, ◌≡◌, Bytes}
use k8s_jumperless.Host.{Host}

-- An opening and a link that succeed show as acquisitions; a closing and a removal as releases,
-- whether they succeed or not. No other call shows.
pub record IsLogged {W R : Type 0} (host : Host W) (log : W → List (Call R)) : Type 0 where
  pub tty : host.Tty → R
  pub link : Bytes → R
  pub log_open :
      (w : W) (p v : host.Tty)
      → (host.open_pty w).0 ≡ some (p, v)
      → log (host.open_pty w).1 ≡ log w ++ acquired (tty p) ∷ acquired (tty v) ∷ []
  pub log_no_open : (w : W) → (host.open_pty w).0 ≡ none → log (host.open_pty w).1 ≡ log w
  pub log_nonblock : (t : host.Tty) (w : W) → log (host.set_nonblock t w).1 ≡ log w
  pub log_close :
      (t : host.Tty) (w : W) → log (host.close_tty t w).1 ≡ log w ++ released (tty t) ∷ []
  pub log_remove :
      (path : Bytes) (w : W) → log (host.remove path w).1 ≡ log w ++ released (link path) ∷ []
  pub log_link :
      (target path : Bytes) (w : W)
      → (host.symlink target path w).0 ≡ true
      → log (host.symlink target path w).1 ≡ log w ++ acquired (link path) ∷ []
  pub log_no_link :
      (target path : Bytes) (w : W)
      → (host.symlink target path w).0 ≡ false
      → log (host.symlink target path w).1 ≡ log w
