-- ===== src/Tests/Devices.antt =====
-- The emulator and the generator over what is logged.
use k8s_jumperless.Base.Calls.{Tidy, acquired}
use k8s_jumperless.Base.{
  Bool, true, false, none, some, List, [], ◌∷◌, ◌++◌, ◌≡◌, ◌≢◌, refl, sym, ◌∙◌, Bytes, codes, pos,
  str_eq,
}
use k8s_jumperless.Emulator.Command.Resources.{run_emulator-Tidy}
use k8s_jumperless.Emulator.Command.{Service, run_emulator}
use k8s_jumperless.Emulator.Lifecycle.Cleanup.{removals}
use k8s_jumperless.Emulator.Lifecycle.Leak.{start_leaks}
use k8s_jumperless.Emulator.Lifecycle.{new_emulator, nonblock_failed, start}
use k8s_jumperless.Emulator.Mappings.{EmulatorConfig}
use k8s_jumperless.Device.Port.{Serial}
use k8s_jumperless.Generator.Run.Sent.{
  CallsLogged, PortCall, SentInOrder, calls_to_send, drained, failed, input_reset, output_reset,
  reading, send_requests-SentInOrder, timing, writing,
}
use k8s_jumperless.Generator.Run.{read_failed, send_requests}
use k8s_jumperless.Tests.Logging.{
  Log, call, calls_of, logging_host, logging_host-IsLogged, start_log, viper,
}
use k8s_jumperless.Viper.{Request}

abbrev service : Service Log
service = record { until_done = λ w. w; until_ended = λ w. w }

is_started : (run_emulator (logging_host true) service viper (start_log [])).0 ≡ none
unfolding run_emulator str_eq
is_started = refl

starts : (run_emulator (logging_host true) service viper (start_log [])).0 ≢ some nonblock_failed
starts e = (let none_failed : none ≡ some nonblock_failed = sym is_started ∙ e in cc)

run_emulator-Tidy_example :
    Tidy calls_of (start_log []) (run_emulator (logging_host true) service viper (start_log [])).1
run_emulator-Tidy_example =
    run_emulator-Tidy (logging_host true) service calls_of (logging_host-IsLogged true)
      (record { log_done = λ w. refl; log_ended = λ w. refl }) viper (start_log []) starts

abbrev config : EmulatorConfig
config = record { buffer_size = pos 1024; virtual_port = codes "/dev/board"; mappings = [] }

abbrev both_open : Log
both_open = call (acquired (codes "pts0")) (call (acquired (codes "ptmx")) (start_log []))

start_leaks_example :
    let result =
      start (logging_host false) config (new_emulator (logging_host false) config) (start_log []) in
    (result.0 ≡ some nonblock_failed)
    × (calls_of result.2
        ≡ calls_of (start_log [])
          ++ acquired ((logging_host-IsLogged false).tty (codes "ptmx"))
            ∷ acquired ((logging_host-IsLogged false).tty (codes "pts0"))
            ∷ removals
                (logging_host false)
                config
                calls_of
                (logging_host-IsLogged false)
                (codes "/dev/board"))
start_leaks_example =
    start_leaks (logging_host false) config calls_of (logging_host-IsLogged false) (start_log [])
      both_open both_open (codes "ptmx") (codes "pts0") refl refl

-- A port of which nothing can be read once the context is done: the calls so far, and whether the
-- goroutine has closed the port.
abbrev Silent : Type 0
Silent = List PortCall × Bool

abbrev at_port : List PortCall → Silent → Silent
at_port calls (past, closed) = (past ++ calls, closed)

abbrev silent : Serial
silent = record {
  World = Silent;
  Handle = Bytes;
  open_serial = λ name rate w. (some name, w);
  close_serial = λ h w. (true, w);
  reset_input_buffer = λ h w. (true, at_port (input_reset ∷ []) w);
  reset_output_buffer = λ h w. (true, at_port (output_reset ∷ []) w);
  write = λ h s w. (true, at_port (writing s ∷ []) w);
  drain = λ h w. (false, at_port (drained ∷ []) w);
  set_read_timeout = λ h t w. (true, at_port (timing t ∷ []) w);
  read = λ h w. (none, at_port (reading ∷ failed ∷ []) w);
  sleep = λ t w. w;
}

abbrev port_calls : Silent → List PortCall
port_calls w = w.0

silent-CallsLogged : CallsLogged silent port_calls
silent-CallsLogged = record {
  log_reset_input = λ h w. refl;
  log_reset_output = λ h w. refl;
  log_write = λ h s w. refl;
  log_drain = λ h w. refl;
  log_timeout = λ h t w. refl;
  log_read = λ h w. refl;
}

abbrev requests : List Request
requests =
    record { text = codes "?"; timeout = pos 5 } ∷ record { text = codes "n"; timeout = pos 0 } ∷ []

-- The context is done, and the goroutine closes the port before each call.
abbrev closing_port : Bytes → Silent → Silent
closing_port h w = (w.0, true)

-- The second request is not written, since the read behind the first one fails.
stops_at_read : send_requests silent closing_port (codes "ttyACM0") requests ([], false) ≡ (
  some read_failed,
  (
    input_reset
        ∷ output_reset
        ∷ writing (codes "?")
        ∷ drained
        ∷ timing (pos 5)
        ∷ reading
        ∷ failed
        ∷ [],
    true,
  ),
)
unfolding send_requests
stops_at_read = refl

send_requests-SentInOrder_example :
    SentInOrder silent closing_port port_calls silent-CallsLogged
      (λ h w. refl)
      (calls_to_send requests)
      ([], false)
      (send_requests silent closing_port (codes "ttyACM0") requests ([], false))
send_requests-SentInOrder_example =
    send_requests-SentInOrder silent closing_port port_calls silent-CallsLogged (λ h w. refl)
      (codes "ttyACM0") requests ([], false)
