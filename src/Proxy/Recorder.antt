-- ===== src/Proxy/Recorder.antt =====
-- `Recorder.Run` of utils/internal/proxy/recording.go, as a machine over what its channels bring.
pub mod Exchanges
use k8s_jumperless.Base.{
  ℕ, not, ◌&&◌, Option, none, some, List, [], ◌∷◌, ◌++◌, if◌then◌else◌, Bytes, sub_ℕ, quotient,
  saturate_int64,
}
use k8s_jumperless.Emulator.Mappings.{ResponseChunk, ResponseOption, Mappings, add_response}
use k8s_jumperless.Proxy.Quoting.{Quoting}

-- What `select` receives until the context is done, with the clock's readings in nanoseconds:
-- for a request `time.Now()`, for a response that of `time.Since` and that of `time.Now()`.
pub data Event : Type 0 where
  request : Bytes → ℕ → Event
  response : Bytes → ℕ → ℕ → Event

pub record Recorder : Type 0 where
  pub requests : Mappings
  pub current_request : Bytes
  pub current_response : Option ResponseOption
  pub current_request_time : ℕ

-- `AddResponse` if `currentRequest != "" && currentResponse != nil`.
unfoldable pub save_current : Mappings → Bytes → Option ResponseOption → Mappings
unfolding add_response
save_current requests [] current = requests
save_current requests (c ∷ s) none = requests
save_current requests (c ∷ s) (some current) = add_response requests (c ∷ s) (current ∷ [])

-- The deferred function, when the loop ends.
unfoldable pub finish : Recorder → Mappings
unfolding save_current
finish r = save_current r.requests r.current_request r.current_response

-- `NewRecorder`, and the variables of `Run` before its loop.
abbrev pub new_recorder : Recorder
new_recorder = record {
  requests = [];
  current_request = [];
  current_response = none;
  current_request_time = 0;
}

module _ (q : Quoting) where
  -- The chunk of a response that is read at `since`, after the time `start`. `time.Since` gives the
  -- `int64` that is nearest to the difference, and 10% of it are rounded towards 0.
  abbrev pub chunk_of : Bytes → ℕ → ℕ → ResponseChunk
  chunk_of data' start since = record {
    text = q.quote data';
    delay = saturate_int64 (sub_ℕ since start);
    jitter_max = quotient (saturate_int64 (sub_ℕ since start)) 10;
  }

  unfoldable pub record_response : Recorder → Option ResponseOption → Bytes → ℕ → ℕ → Recorder
  record_response r none res since now = r
  record_response r (some current) res since now = record r {
    current_response =
        some (record { chunks = current.chunks ++ chunk_of res r.current_request_time since ∷ [] });
    current_request_time = now;
  }

  -- One turn of the loop.
  unfoldable pub step : Recorder → Event → Recorder
  unfolding finish record_response
  step r (request req now) = record {
    requests = finish r;
    current_request = req;
    current_response = some (record { chunks = [] });
    current_request_time = now;
  }
  step r (response res since now) = record_response r r.current_response res since now

  unfoldable pub run_from : Recorder → List Event → Mappings
  unfolding step finish
  run_from r [] = finish r
  run_from r (e ∷ es) = run_from (step r e) es

  -- `NewRecorder`, then `Run` until the context is done, then `GetRecording`.
  unfoldable pub run : List Event → Mappings
  unfolding run_from
  run events = run_from new_recorder events
