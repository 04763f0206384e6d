-- ===== src/Proxy/Goroutines/Drain.antt =====
-- A way for `Proxy.Run` to return while the recorder runs.
use k8s_jumperless.Base.{ℕ, Bool, true, some, List, ◌≡◌, refl, sym, Bytes}
use k8s_jumperless.Emulator.Mappings.{Mappings}
use k8s_jumperless.Proxy.Goroutines.{
  Place, checking, reading, stopped, sending, forwarding, Alone, leave, nothing, forward, System,
  Step, move_request, move_response, record_request, record_response, end_recorder, return, Steps,
  here, later,
}
use k8s_jumperless.Proxy.Quoting.{Quoting}
use k8s_jumperless.Proxy.Recorder.{finish}
use mathlib.Core.Path.{subst}

module _ (q : Quoting) (size : ℕ) where
  Steps-trans : {s t u : System} → Steps q size s t → Steps q size t u → Steps q size s u
  Steps-trans a here = a
  Steps-trans a (later b st) = later (Steps-trans a b) st

  Steps-first : {s t u : System} → Step q size s t → Steps q size t u → Steps q size s u
  Steps-first st steps = Steps-trans (later here st) steps

  Alone-at :
      {done : Bool} {p p' r : Place} {t t' w w' : List Bytes}
      → r ≡ p
      → Alone size done p t w p' t' w'
      → Alone size done r t w p' t' w'
  Alone-at {done} {p' = p'} {t = t} {t' = t'} {w = w} {w' = w'} e a =
      subst (λ r. Alone size done r t w p' t' w') (sym e) a

  -- The goroutine of the requests has stopped, and the one of the responses stands where it did.
  record RequestsEnd (s : System) : Type 0 where
    last : System
    steps : Steps q size s last
    done : last.done ≡ true
    running : last.recorder_running ≡ true
    requests : last.requests.place ≡ stopped

  module _ (s : System) (done : s.done ≡ true) (running : s.recorder_running ≡ true) where
    requests_end_checking : s.requests.place ≡ checking → RequestsEnd s
    requests_end_checking e = record {
      last = _;
      steps = later here (move_request (Alone-at e (leave done)));
      done = done;
      running = running;
      requests = refl;
    }

  before : {s t : System} → Step q size s t → RequestsEnd t → RequestsEnd s
  before st r = record {
    last = r.last;
    steps = Steps-first st r.steps;
    done = r.done;
    running = r.running;
    requests = r.requests;
  }

  requests_end_forwarding :
      (s : System) (p : Bytes)
      → s.done ≡ true
      → s.recorder_running ≡ true
      → s.requests.place ≡ forwarding p
      → RequestsEnd s
  requests_end_forwarding s p done running e =
      before (move_request (Alone-at e forward)) (requests_end_checking _ done running refl)

  requests_end :
      (s : System) (p : Place)
      → s.done ≡ true
      → s.recorder_running ≡ true
      → s.requests.place ≡ p
      → RequestsEnd s
  requests_end s checking done running e = requests_end_checking s done running e
  requests_end s reading done running e =
      before (move_request (Alone-at e nothing)) (requests_end_checking _ done running refl)
  requests_end s stopped done running e = record {
    last = s;
    steps = here;
    done = done;
    running = running;
    requests = e;
  }
  requests_end s (sending p) done running e =
      before (record_request 0 running e) (requests_end_forwarding _ p done running refl)
  requests_end s (forwarding p) done running e = requests_end_forwarding s p done running e

  -- `Run` returns in the end.
  record End (s : System) : Type 0 where
    last : System
    recording : Mappings
    steps : Steps q size s last
    returned : last.result ≡ some recording

  before-End : {s t : System} → Step q size s t → End t → End s
  before-End st r = record {
    last = r.last;
    recording = r.recording;
    steps = Steps-first st r.steps;
    returned = r.returned;
  }

  module _ (s : System) (done : s.done ≡ true) (running : s.recorder_running ≡ true)
      (requests : s.requests.place ≡ stopped) where
    End-stopped : s.responses.place ≡ stopped → End s
    End-stopped e = record {
      last = _;
      recording = finish s.recorder;
      steps = later (later here (end_recorder done running)) (return done requests e refl);
      returned = refl;
    }

  End-checking :
      (s : System)
      → s.done ≡ true
      → s.recorder_running ≡ true
      → s.requests.place ≡ stopped
      → s.responses.place ≡ checking
      → End s
  End-checking s done running requests e =
      before-End (move_response (Alone-at e (leave done)))
        (End-stopped _ done running requests refl)

  End-forwarding :
      (s : System) (p : Bytes)
      → s.done ≡ true
      → s.recorder_running ≡ true
      → s.requests.place ≡ stopped
      → s.responses.place ≡ forwarding p
      → End s
  End-forwarding s p done running requests e =
      before-End (move_response (Alone-at e forward)) (End-checking _ done running requests refl)

  responses-End :
      (s : System) (p : Place)
      → s.done ≡ true
      → s.recorder_running ≡ true
      → s.requests.place ≡ stopped
      → s.responses.place ≡ p
      → End s
  responses-End s checking done running requests e = End-checking s done running requests e
  responses-End s reading done running requests e =
      before-End (move_response (Alone-at e nothing)) (End-checking _ done running requests refl)
  responses-End s stopped done running requests e = End-stopped s done running requests e
  responses-End s (sending p) done running requests e =
      before-End (record_response 0 0 running e) (End-forwarding _ p done running requests refl)
  responses-End s (forwarding p) done running requests e =
      End-forwarding s p done running requests e

  -- When the context is done and the recorder still runs, the goroutines can end in some order so
  -- that `Run` returns, wherever they stand: a piece that waits for the recorder can be recorded.
  pub run_can_return :
      (s : System)
      → s.done ≡ true
      → s.recorder_running ≡ true
      → (t : System) × (ms : Mappings) × Steps q size s t × (t.result ≡ some ms)
  run_can_return s done running =
      let r = requests_end s s.requests.place done running refl in
      let e = responses-End r.last r.last.responses.place r.done r.running r.requests refl in
      (e.last, e.recording, Steps-trans r.steps e.steps, e.returned)
