-- ===== src/Generator/Run/Resources.antt =====
-- The generator closes each port that it opens.
use k8s_jumperless.Base.Calls.{Call, Tidy, acquired, Tidy-bracket, Tidy-same, Tidy-trans}
use k8s_jumperless.Base.{
  ℕ, zero, suc, Bool, true, false, Option, none, some, List, [], ◌∷◌, ◌++◌, ◌≡◌, refl, ◌∙◌, Bytes,
  ℤ, pos, negsuc, Result, ok, err,
}
use k8s_jumperless.Device.Board.Tidy.{new_jumperless-Tidy}
use k8s_jumperless.Device.Board.{FindError, Tools, new_jumperless}
use k8s_jumperless.Device.Port.Tidy.{IsLogged}
use k8s_jumperless.Device.Port.{JumperlessPort, Serial}
use k8s_jumperless.Generator.Config.{GeneratorConfig}
use k8s_jumperless.Generator.Run.{
  GeneratorError, Outcome, checked, on_detected, on_open, read_once, run_generator, send_requests,
  set_timeout, reset_input_failed, reset_output_failed, write_failed, timeout_failed, read_failed,
}
use k8s_jumperless.Viper.{Request}

module _ (serial : Serial) {R : Type 0} (log : serial.World → List (Call R))
    (laws : IsLogged serial log) (meanwhile : serial.Handle → serial.World → serial.World)
    (quiet : (h : serial.Handle) (w : serial.World) → Tidy log w (meanwhile h w)) where
  checked-Tidy :
      (h : serial.Handle) (e : GeneratorError) (next : serial.World → Outcome serial meanwhile)
      (w : serial.World) (r : Bool × serial.World)
      → log r.1 ≡ log (meanwhile h w)
      → ((w1 : serial.World) → Tidy log w1 (next w1).1)
      → Tidy log w (checked serial meanwhile e next r).1
  checked-Tidy h e next w (true, w1) same f =
      Tidy-trans log (quiet h w) (Tidy-trans log (Tidy-same log same) (f w1))
  checked-Tidy h e next w (false, w1) same f = Tidy-trans log (quiet h w) (Tidy-same log same)

  log-set_timeout :
      (h : serial.Handle) (t : ℤ) (w : serial.World)
      → log (set_timeout serial meanwhile h t w).1 ≡ log w
  log-set_timeout h (pos zero) w = refl
  log-set_timeout h (pos (suc n)) w = laws.log_timeout h (pos (suc n)) w
  log-set_timeout h (negsuc n) w = refl

  log-read_once :
      (h : serial.Handle) (r : Option Bytes × serial.World)
      → log (read_once serial meanwhile h r).1 ≡ log r.1
  log-read_once h (some s, w) = refl
  log-read_once h (none, w) = refl

  send_requests-Tidy :
      (h : serial.Handle) (requests : List Request) (w : serial.World)
      → Tidy log w (send_requests serial meanwhile h requests w).1
  unfolding send_requests
  send_requests-Tidy h [] w = Tidy-same log refl
  send_requests-Tidy h (req ∷ requests) w =
      checked-Tidy h reset_input_failed _ w (serial.reset_input_buffer h (meanwhile h w))
        (laws.log_reset_input h _)
        (λ w1.
          checked-Tidy h reset_output_failed _ w1 (serial.reset_output_buffer h (meanwhile h w1))
            (laws.log_reset_output h _)
            (λ w2.
              checked-Tidy h write_failed _ w2 (serial.write h req.text (meanwhile h w2))
                (laws.log_write h req.text _)
                (λ w3.
                  let drained = (serial.drain h (meanwhile h w3)).1 in
                  Tidy-trans log (quiet h w3) (
                    Tidy-trans log (Tidy-same log (laws.log_drain h (meanwhile h w3))) (
                      checked-Tidy h timeout_failed _ drained
                        (set_timeout serial meanwhile h req.timeout (meanwhile h drained))
                        (log-set_timeout h req.timeout (meanwhile h drained))
                        (λ w4.
                          checked-Tidy h read_failed (send_requests serial meanwhile h requests) w4
                            (read_once serial meanwhile h (serial.read h (meanwhile h w4)))
                            (log-read_once h (serial.read h (meanwhile h w4))
                              ∙ laws.log_read h (meanwhile h w4))
                            (send_requests-Tidy h requests)))))))

  on_open-Tidy :
      (requests : List Request) (name : Bytes) (rate : ℤ) (w : serial.World)
      → Tidy log w (on_open serial meanwhile requests (serial.open_serial name rate w)).1
  on_open-Tidy requests name rate w =
      go (serial.open_serial name rate w) (laws.log_open name rate w) (laws.log_no_open name rate w)
    where
      go :
          (r : Option serial.Handle × serial.World)
          → ((h : serial.Handle) → r.0 ≡ some h → log r.1 ≡ log w ++ acquired (laws.port h) ∷ [])
          → (r.0 ≡ none → log r.1 ≡ log w)
          → Tidy log w (on_open serial meanwhile requests r).1
      go (none, w1) f g = Tidy-same log (g refl)
      go (some h, w1) f g =
          Tidy-bracket log (laws.port h) (f h refl)
            (Tidy-trans log (send_requests-Tidy h requests w1) (quiet h _)) (laws.log_close h _)

  module _ (tools : Tools serial)
      (log_names : (w : serial.World) → log (tools.port_names w).1 ≡ log w) (fuel : ℕ)
      (config : GeneratorConfig) where
    on_detected-Tidy :
        (r : Result FindError (JumperlessPort serial) × serial.World)
        → Tidy log r.1 (on_detected serial meanwhile tools fuel config r).1
    on_detected-Tidy (err e, w) = Tidy-same log refl
    on_detected-Tidy (ok j, w) = on_open-Tidy config.requests j.port_name config.baud_rate w

    -- Whatever fails, the generator closes each port that it opens, in the search for a board and to
    -- send the requests. Neither the goroutine nor listing the ports leaves a port open.
    pub run_generator-Tidy :
        (w : serial.World) → Tidy log w (run_generator serial meanwhile tools fuel config w).1
    unfolding run_generator
    run_generator-Tidy w =
        elim config.port
            as (λ o.
              config.port ≡ o → Tidy log w (run_generator serial meanwhile tools fuel config w).1) [
                | [] ↦ λ e.
                    rw (e, run_generator)
                      (Tidy-trans log
                        (new_jumperless-Tidy serial log laws tools log_names fuel []
                          config.baud_rate w)
                        (on_detected-Tidy (new_jumperless serial tools fuel [] config.baud_rate w)))
                | c ∷ port ↦ λ e.
                    rw (e, run_generator)
                      (on_open-Tidy config.requests (c ∷ port) config.baud_rate w)
              ]
          refl
