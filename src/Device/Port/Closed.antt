-- ===== src/Device/Port/Closed.antt =====
-- The port that `NewJumperlessPort` returns.
use k8s_jumperless.Base.{
  ℕ, Bool, true, false, Option, none, some, [], ◌≡◌, refl, Bytes, ℤ, ok, err, ok-injective,
}
use k8s_jumperless.Device.Port.{
  JumperlessPort, Run, Serial, after_close, check_port, close_port, closed, default_rate,
  found_version, is_jumperless_port, new_jumperless_port, open_port, opened,
}
use mathlib.Core.Path.{subst}

module _ (serial : Serial)
    (closes : (h : serial.Handle) (w : serial.World) → (serial.close_serial h w).0 ≡ true) where
  -- A port that can be opened again, under the name and with the baud rate.
  pub record IsReady (port_name : Bytes) (baud_rate : ℤ) (p : JumperlessPort serial) : Type 0 where
    pub named : p.port_name ≡ port_name
    pub rated : p.baud_rate ≡ baud_rate
    pub closed_port : p.port ≡ none

  module _ (port_name : Bytes) (baud_rate : ℤ) where
    after_close-IsReady :
        (p : JumperlessPort serial) (r : Bool × serial.World) (q : JumperlessPort serial)
        → p.port_name ≡ port_name
        → p.baud_rate ≡ baud_rate
        → r.0 ≡ true
        → (after_close serial p (closed serial p r)).0 ≡ ok q
        → IsReady port_name baud_rate q
    after_close-IsReady p (false, w) q n b c h = cc
    after_close-IsReady p (true, w) q n b c h =
        subst (IsReady port_name baud_rate) (ok-injective h)
          (record { named = n; rated = b; closed_port = refl })

    abbrev with_port : Option serial.Handle → JumperlessPort serial
    with_port port = record {
      port_name = port_name;
      baud_rate = baud_rate;
      port = port;
      version = [];
    }

    found_version-IsReady :
        (handle : serial.Handle) (r : Run serial (Option Bytes)) (q : JumperlessPort serial)
        → (found_version serial (with_port (some handle)) r).0 ≡ ok q
        → IsReady port_name baud_rate q
    unfolding close_port
    found_version-IsReady handle (err e, w) q h = cc
    found_version-IsReady handle (ok none, w) q h = cc
    found_version-IsReady handle (ok (some v), w) q h =
        after_close-IsReady (record (with_port (some handle)) { version = v })
          (serial.close_serial handle w) q refl refl (closes handle w) h

    check_port-IsReady :
        (fuel : ℕ) (r : Option serial.Handle × serial.World) (q : JumperlessPort serial)
        → (check_port serial fuel (opened serial (with_port none) r)).0 ≡ ok q
        → IsReady port_name baud_rate q
    check_port-IsReady fuel (none, w) q h = cc
    check_port-IsReady fuel (some handle, w) q h =
        found_version-IsReady handle (is_jumperless_port serial fuel (with_port (some handle)) w) q
          h

  -- A port that `NewJumperlessPort` returns is closed, so that `Open` does not refuse it, and it
  -- has the given name and the given baud rate, or 115200 for 0. Closing a port never fails.
  pub new_jumperless_port-IsReady :
      (fuel : ℕ) (port_name : Bytes) (baud_rate : ℤ) (w : serial.World) (p : JumperlessPort serial)
      → (new_jumperless_port serial fuel port_name baud_rate w).0 ≡ ok p
      → IsReady port_name (default_rate baud_rate) p
  unfolding new_jumperless_port open_port
  new_jumperless_port-IsReady fuel port_name baud_rate w p h =
      check_port-IsReady port_name (default_rate baud_rate) fuel _ p h
