-- ===== src/Device/Board/Tidy.antt =====
-- `NewJumperless` closes each port that it opens.
use k8s_jumperless.Base.Calls.{Call, Tidy, Tidy-same, Tidy-trans}
use k8s_jumperless.Base.{ℕ, Option, none, some, List, [], ◌∷◌, ◌≡◌, refl, Bytes, ℤ, Result, ok, err}
use k8s_jumperless.Device.Board.{
  FindError, Tools, find_enumerated, find_port, new_jumperless, of_port, try_next,
}
use k8s_jumperless.Device.Port.Tidy.{IsLogged, new_jumperless_port-Tidy}
use k8s_jumperless.Device.Port.{JumperlessPort, PortError, Run, Serial, new_jumperless_port}

module _ (serial : Serial) {R : Type 0} (log : serial.World → List (Call R))
    (laws : IsLogged serial log) where
  try_next-Tidy :
      (next : List PortError
        → serial.World
        → Result FindError (JumperlessPort serial) × serial.World)
      (errs : List PortError) (w : serial.World) (r : Run serial (JumperlessPort serial))
      → Tidy log w r.1
      → ((errs : List PortError) (w : serial.World) → Tidy log w (next errs w).1)
      → Tidy log w (try_next serial next errs r).1
  try_next-Tidy next errs w (ok p, w1) t f = t
  try_next-Tidy next errs w (err e, w1) t f = Tidy-trans log t (f _ w1)

  find_port-Tidy :
      (fuel : ℕ) (rate : ℤ) (names : List Bytes) (errs : List PortError) (w : serial.World)
      → Tidy log w (find_port serial fuel rate names errs w).1
  unfolding find_port
  find_port-Tidy fuel rate [] errs w = Tidy-same log refl
  find_port-Tidy fuel rate (name ∷ names) errs w =
      try_next-Tidy (find_port serial fuel rate names) errs w _
        (new_jumperless_port-Tidy serial log laws fuel name rate w)
        (λ es v. find_port-Tidy fuel rate names es v)

  module _ (tools : Tools serial)
      (log_names : (w : serial.World) → log (tools.port_names w).1 ≡ log w) where
    find_enumerated-Tidy :
        (fuel : ℕ) (rate : ℤ) (w : serial.World) (r : Option (List Bytes) × serial.World)
        → log r.1 ≡ log w
        → Tidy log w (find_enumerated serial fuel rate r).1
    find_enumerated-Tidy fuel rate w (none, w1) e = Tidy-same log e
    find_enumerated-Tidy fuel rate w (some [], w1) e = Tidy-same log e
    find_enumerated-Tidy fuel rate w (some (name ∷ names), w1) e =
        Tidy-trans log (Tidy-same log e) (find_port-Tidy fuel rate (name ∷ names) [] w1)

    pub new_jumperless-Tidy :
        (fuel : ℕ) (name : Bytes) (rate : ℤ) (w : serial.World)
        → Tidy log w (new_jumperless serial tools fuel name rate w).1
    unfolding new_jumperless
    new_jumperless-Tidy fuel [] rate w = find_enumerated-Tidy fuel rate w _ (log_names w)
    new_jumperless-Tidy fuel (c ∷ name) rate w =
        go (new_jumperless_port serial fuel (c ∷ name) rate w)
          (new_jumperless_port-Tidy serial log laws fuel (c ∷ name) rate w)
      where
        go :
            (r : Run serial (JumperlessPort serial))
            → Tidy log w r.1
            → Tidy log w (of_port serial r).1
        go (ok p, w1) t = t
        go (err e, w1) t = t
