-- ===== src/Tests/Goroutines.antt =====
-- The goroutines of the proxy over one exchange, and the delay of a recorded chunk.
use k8s_jumperless.Base.{
  ◌-◌, ◌+◌, ◌/◌, true, false, some, none, List, [], ◌∷◌, ◌≡◌, refl, arith, codes, pos, ◌+ℤ◌,
}
use k8s_jumperless.Emulator.Mappings.{Mappings}
use k8s_jumperless.Emulator.Respond.{chunk_delay}
use k8s_jumperless.Proxy.Goroutines.Drain.{run_can_return}
use k8s_jumperless.Proxy.Goroutines.Hang.{run_hangs, run_reaches_hang}
use k8s_jumperless.Proxy.Goroutines.Order.{
  IsConsistent, Steps-IsConsistent, request_pieces, response_pieces,
}
use k8s_jumperless.Proxy.Goroutines.Return.{IsForwarded, run_returns}
use k8s_jumperless.Proxy.Goroutines.{
  Steps, System, cancel, end_recorder, enter, forward, here, later, leave, move_request,
  move_response, new_system, piece, record_request, record_response, return, sending, stopped,
}
use k8s_jumperless.Proxy.Recorder.{
  Event, Recorder, chunk_of, finish, new_recorder, request, response, run, step,
}
use k8s_jumperless.Proxy.Timing.{IsBetween, IsRandom, drawn, chunk_delay-IsBetween}
use k8s_jumperless.Tests.Examples.{marking, paper}

abbrev heard : List Event
heard = request (codes "?") 0 ∷ response (codes "one") 5 6 ∷ []

abbrev recorder : Recorder
recorder =
    step marking (step marking new_recorder (request (codes "?") 0)) (response (codes "one") 5 6)

-- All that was read is recorded and forwarded, and `Run` has returned.
abbrev last : System
last = record {
  done = true;
  requests = record { place = stopped; taken = codes "?" ∷ []; handed = codes "?" ∷ [] };
  responses = record { place = stopped; taken = codes "one" ∷ []; handed = codes "one" ∷ [] };
  recorder = recorder;
  recorder_running = false;
  events = heard;
  result = some (finish recorder);
}

-- A buffer of 8 bytes.
session-Steps : Steps marking 8 new_system last
session-Steps =
    later
      (later
        (later
          (later
            (later
              (later
                (later
                  (later
                    (later
                      (later
                        (later
                          (later (later here (move_request (enter refl)))
                            (move_request (piece (omega arith))))
                          (move_response (enter refl)))
                        (record_request 0 refl refl))
                      (move_request forward))
                    (move_response (piece (omega arith))))
                  (record_response 5 6 refl refl))
                (move_response forward))
              cancel)
            (move_request (leave refl)))
          (move_response (leave refl)))
        (end_recorder refl refl))
      (return refl refl refl refl)

run_returns_example :
    (finish recorder ≡ run marking heard)
    × IsForwarded (request_pieces heard) last.requests
    × IsForwarded (response_pieces heard) last.responses
run_returns_example = run_returns marking 8 (finish recorder) session-Steps refl

Steps-IsConsistent_example : IsConsistent marking 8 last
Steps-IsConsistent_example = Steps-IsConsistent marking 8 session-Steps

-- The recorder has ended while a request waits for it.
abbrev hung : System
hung = record new_system {
  done = true;
  requests = record { place = sending (codes "?"); taken = codes "?" ∷ []; handed = [] };
  recorder_running = false;
}

abbrev later_on : System
later_on = record hung { responses = record { place = stopped; taken = []; handed = [] } }

hung-Steps : Steps marking 8 hung later_on
hung-Steps = later here (move_response (leave refl))

run_hangs_example : later_on.result ≡ none
run_hangs_example = run_hangs marking 8 hung later_on (codes "?") refl refl refl hung-Steps

run_reaches_hang_example :
    (s : System) × Steps marking 8 new_system s
    × (s.recorder_running ≡ false)
    × (s.requests.place ≡ sending (codes "?"))
    × (s.result ≡ none)
run_reaches_hang_example = run_reaches_hang marking 8 b'?' [] (omega arith)

-- A request waits and the recorder still runs.
abbrev waiting : System
waiting = record hung { recorder_running = true }

run_can_return_example :
    (t : System) × (ms : Mappings) × Steps marking 8 waiting t × (t.result ≡ some ms)
run_can_return_example = run_can_return marking 8 waiting refl refl

paper-IsRandom : IsRandom paper
paper-IsRandom = record { below = λ n s. (0, refl, omega arith) }

chunk_delay-IsBetween_example :
    let delay = (chunk_delay marking paper (chunk_of marking (codes "one") 5 105) []).0 in
    IsBetween (105 - 5) ((105 - 5) + (105 - 5) / 10) delay
    × (delay ≡ pos (105 - 5) +ℤ drawn paper ((105 - 5) / 10) [])
chunk_delay-IsBetween_example =
    chunk_delay-IsBetween marking paper paper-IsRandom (codes "one") 5 105 [] (omega arith)
      (omega arith)
