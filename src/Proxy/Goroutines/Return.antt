-- ===== src/Proxy/Goroutines/Return.antt =====
-- What `Proxy.Run` returns, and when it can.
use k8s_jumperless.Base.{ℕ, Bool, false, some, List, [], ◌++◌, ◌≡◌, sym, ap, ◌∙◌, Bytes}
use k8s_jumperless.Emulator.Mappings.{Mappings}
use k8s_jumperless.Proxy.Goroutines.{
  Place, checking, reading, stopped, sending, forwarding, Side, Alone, leave, enter, nothing, piece,
  forward, System, new_system, Step, cancel, move_request, move_response, record_request,
  record_response, end_recorder, return, Steps, here, later,
}
use k8s_jumperless.Proxy.Quoting.{Quoting}
use k8s_jumperless.Proxy.Recorder.{finish, run_from, run}
use mathlib.Core.Path.{subst}
use mathlib.Core.List.{append-nil}
use mathlib.Core.Option.{some-injective}
use k8s_jumperless.Proxy.Goroutines.Order.{
  InOrder, Steps-IsConsistent, request_pieces, response_pieces, unsent, unforwarded,
}

abbrev IsStopped : Place → Type 0
IsStopped checking = ⊥
IsStopped reading = ⊥
IsStopped stopped = Unit
IsStopped (sending p) = ⊥
IsStopped (forwarding p) = ⊥

not-Alone :
    {size : ℕ} {done : Bool} {p p' : Place} {t t' w w' : List Bytes}
    → Alone size done p t w p' t' w'
    → IsStopped p
    → ⊥
not-Alone (leave d) h = h
not-Alone (enter d) h = h
not-Alone nothing h = h
not-Alone (piece short) h = h
not-Alone forward h = h

-- A goroutine that has stopped has forwarded all that it has read.
pub record IsForwarded (recorded : List Bytes) (side : Side) : Type 0 where
  pub all_recorded : side.taken ≡ recorded
  pub all_handed : side.handed ≡ side.taken

stopped-IsForwarded :
    (recorded : List Bytes) (side : Side)
    → side.place ≡ stopped
    → InOrder recorded side.place side.taken side.handed
    → IsForwarded recorded side
stopped-IsForwarded recorded side e h =
    let none_unsent : unsent side.place ≡ [] = rw e in
    let none_left : unforwarded side.place ≡ [] = rw e in
    let read : side.taken ≡ recorded = h.read ∙ ap (◌++◌ recorded) none_unsent ∙ append-nil _ in
    let sent : recorded ≡ side.handed = h.sent ∙ ap (◌++◌ side.handed) none_left ∙ append-nil _ in
    record { all_recorded = read; all_handed = sym (read ∙ sent) }

module _ (q : Quoting) (size : ℕ) where
  -- What holds once `Run` has returned.
  record HasReturned (s : System) (ms : Mappings) : Type 0 where
    requests_stopped : s.requests.place ≡ stopped
    responses_stopped : s.responses.place ≡ stopped
    recorder_ended : s.recorder_running ≡ false
    recording : finish s.recorder ≡ ms

  abbrev Returns : System → Type 0
  Returns s = (ms : Mappings) → s.result ≡ some ms → HasReturned s ms

  Step-Returns : {s t : System} → Step q size s t → Returns s → Returns t
  Step-Returns cancel h ms e =
      let r = h ms e in
      record {
        requests_stopped = r.requests_stopped;
        responses_stopped = r.responses_stopped;
        recorder_ended = r.recorder_ended;
        recording = r.recording;
      }
  Step-Returns (move_request a) h ms e =
      absurd (not-Alone a (subst IsStopped (sym ((h ms e).requests_stopped)) tt))
  Step-Returns (move_response a) h ms e =
      absurd (not-Alone a (subst IsStopped (sym ((h ms e).responses_stopped)) tt))
  Step-Returns (record_request now r i) h ms e = (let x = (h ms e).recorder_ended in cc)
  Step-Returns (record_response since now r i) h ms e = (let x = (h ms e).recorder_ended in cc)
  Step-Returns (end_recorder d r) h ms e = (let x = (h ms e).recorder_ended in cc)
  Step-Returns (return d a b r) h ms e = record {
    requests_stopped = a;
    responses_stopped = b;
    recorder_ended = r;
    recording = some-injective _ _ e;
  }

  Steps-Returns : {s : System} → Steps q size new_system s → Returns s
  Steps-Returns here ms e = cc
  Steps-Returns (later r st) ms e = Step-Returns st (Steps-Returns r) ms e

  -- When `Run` returns, in whatever order the goroutines moved, it returns what a recorder makes of
  -- the requests and the responses in the order in which it received them; these are all the pieces
  -- that were read from either port, in order, and all of them were handed to the `Write` of the
  -- other port, whose error is only logged.
  pub run_returns :
      {s : System} (ms : Mappings)
      → Steps q size new_system s
      → s.result ≡ some ms
      → (ms ≡ run q s.events)
        × IsForwarded (request_pieces s.events) s.requests
        × IsForwarded (response_pieces s.events) s.responses
  unfolding run_from
  run_returns {s} ms steps e =
      let h = Steps-IsConsistent q size steps in
      let r = Steps-Returns steps ms e in
      (
        sym r.recording ∙ h.ran [] ∙ ap (run q) (append-nil s.events),
        stopped-IsForwarded _ s.requests r.requests_stopped h.requests,
        stopped-IsForwarded _ s.responses r.responses_stopped h.responses,
      )
