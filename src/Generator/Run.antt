-- ===== src/Generator/Run.antt =====
-- `Run` of utils/internal/generator/generator.go. What the goroutine that closes the port when
-- the context is done has done by the next call is a function on the world.
pub mod Resources
pub mod Sent
use k8s_jumperless.Base.{
  ℕ, zero, suc, Bool, true, false, Option, none, some, List, [], ◌∷◌, Bytes, ℤ, pos, negsuc, Result,
  ok, err,
}
use k8s_jumperless.Device.Board.{FindError, Tools, new_jumperless}
use k8s_jumperless.Device.Port.{JumperlessPort, Serial}
use k8s_jumperless.Generator.Config.{GeneratorConfig}
use k8s_jumperless.Viper.{Request}

pub data GeneratorError : Type 0 where
  not_detected : FindError → GeneratorError
  open_failed reset_input_failed reset_output_failed write_failed : GeneratorError
  timeout_failed read_failed : GeneratorError

module _ (serial : Serial) (meanwhile : serial.Handle → serial.World → serial.World) where
  -- The error, if any, and the world behind it.
  abbrev pub Outcome : Type 0
  Outcome = Option GeneratorError × serial.World

  -- `if err := ...; err != nil { return ... }`
  abbrev pub checked : GeneratorError → (serial.World → Outcome) → Bool × serial.World → Outcome
  checked e next (true, w) = next w
  checked e next (false, w) = (some e, w)

  -- `if req.Timeout > 0`
  abbrev pub set_timeout : serial.Handle → ℤ → serial.World → Bool × serial.World
  set_timeout h (pos zero) w = (true, w)
  set_timeout h (pos (suc n)) w = serial.set_read_timeout h (pos (suc n)) w
  set_timeout h (negsuc n) w = (true, w)

  -- A read, of which the error alone counts: what was read is only logged.
  abbrev pub read_once : serial.Handle → Option Bytes × serial.World → Bool × serial.World
  read_once h (some s, w) = (true, w)
  read_once h (none, w) = (false, w)

  -- One turn of the loop; `next` is what follows it. The error of `Drain` is only logged.
  abbrev pub send_request :
      serial.Handle → Request → (serial.World → Outcome) → serial.World → Outcome
  send_request h req next w =
      checked reset_input_failed
        (λ w1.
          checked reset_output_failed
            (λ w2.
              checked write_failed
                (λ w3.
                  checked timeout_failed
                    (λ w4. checked read_failed next (read_once h (serial.read h (meanwhile h w4))))
                    (set_timeout h req.timeout (meanwhile h (serial.drain h (meanwhile h w3)).1)))
                (serial.write h req.text (meanwhile h w2)))
            (serial.reset_output_buffer h (meanwhile h w1)))
        (serial.reset_input_buffer h (meanwhile h w))

  -- The loop over the requests.
  unfoldable pub send_requests : serial.Handle → List Request → serial.World → Outcome
  send_requests h [] w = (none, w)
  send_requests h (req ∷ requests) w = send_request h req (send_requests h requests) w

  -- The deferred closing, whose error is only logged.
  abbrev pub close_port : serial.Handle → Outcome → Outcome
  close_port h (e, w) = (e, (serial.close_serial h (meanwhile h w)).1)

  abbrev pub on_open : List Request → Option serial.Handle × serial.World → Outcome
  on_open requests (none, w) = (some open_failed, w)
  on_open requests (some h, w) = close_port h (send_requests h requests w)

  module _ (tools : Tools serial) (fuel : ℕ) (config : GeneratorConfig) where
    abbrev pub on_detected : Result FindError (JumperlessPort serial) × serial.World → Outcome
    on_detected (err e, w) = (some (not_detected e), w)
    on_detected (ok j, w) =
        on_open config.requests (serial.open_serial j.port_name config.baud_rate w)

    -- `Run`
    unfoldable pub run_generator : serial.World → Outcome
    unfolding new_jumperless send_requests
    run_generator w = elim config.port [
      | [] ↦ on_detected (new_jumperless serial tools fuel [] config.baud_rate w)
      | c ∷ port ↦ on_open config.requests (serial.open_serial (c ∷ port) config.baud_rate w)
    ]
