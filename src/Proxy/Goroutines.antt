-- ===== src/Proxy/Goroutines.antt =====
-- The goroutines of `Proxy.Run`, `proxyVirtualToReal`, `proxyRealToVirtual` and `Recorder.Run`, of
-- utils/internal/proxy/proxy.go, interleaved in any order.
pub mod Drain
pub mod Hang
pub mod Order
pub mod Return
use k8s_jumperless.Base.{
  ℕ, ◌≤◌, Bool, true, false, Option, none, some, List, [], ◌∷◌, ◌++◌, ◌≡◌, Bytes, length,
}
use k8s_jumperless.Emulator.Mappings.{Mappings}
use k8s_jumperless.Proxy.Quoting.{Quoting}
use k8s_jumperless.Proxy.Recorder.{Event, request, response, Recorder, new_recorder, step, finish}

-- Where a forwarding goroutine stands: at its `select`, in its read, in the send to the recorder,
-- before the write to the other port, or behind its return.
pub data Place : Type 0 where
  checking reading stopped : Place
  sending forwarding : Bytes → Place

-- A forwarding goroutine, with the pieces that it has read and those that it has handed to
-- `Write`, whose error is only logged.
pub record Side : Type 0 where
  pub place : Place
  pub taken : List Bytes
  pub handed : List Bytes

-- A move that needs no other goroutine, for a buffer of `size` bytes and a context that is done or
-- not. A read gives a piece of the buffer, or nothing: an error, or no bytes.
pub data Alone (size : ℕ) (done : Bool)
    : Place → List Bytes → List Bytes → Place → List Bytes → List Bytes → Type 0 where
  leave : {t w : List Bytes} → done ≡ true → Alone size done checking t w stopped t w
  enter : {t w : List Bytes} → done ≡ false → Alone size done checking t w reading t w
  nothing : {t w : List Bytes} → Alone size done reading t w checking t w
  piece :
      {t w : List Bytes} {c : ℕ} {s : Bytes}
      → length (c ∷ s) ≤ size
      → Alone size done reading t w (sending (c ∷ s)) (t ++ (c ∷ s) ∷ []) w
  -- Whether `Write` succeeds or not.
  forward :
      {t w : List Bytes} {p : Bytes} → Alone size done (forwarding p) t w checking t (w ++ p ∷ [])

-- `done` is whether the context is done, which ends the contexts of the three goroutines as well.
-- `events` is what the recorder has received, and `result` what `Run` returns, once it does.
pub record System : Type 0 where
  pub done : Bool
  pub requests : Side
  pub responses : Side
  pub recorder : Recorder
  pub recorder_running : Bool
  pub events : List Event
  pub result : Option Mappings

abbrev new_side : Side
new_side = record { place = checking; taken = []; handed = [] }

-- The goroutines as `Run` starts them.
abbrev pub new_system : System
new_system = record {
  done = false;
  requests = new_side;
  responses = new_side;
  recorder = new_recorder;
  recorder_running = true;
  events = [];
  result = none;
}

-- A send on an unbuffered channel and the recorder's receive are one step. When the context is
-- done and a goroutine sends, the recorder's `select` may take either.
pub data Step (q : Quoting) (size : ℕ) (s : System) : System → Type 0 where
  cancel : Step q size s (record s { done = true })
  move_request :
      {p : Place} {t w : List Bytes}
      → Alone size s.done s.requests.place s.requests.taken s.requests.handed p t w
      → Step q size s (record s { requests = record { place = p; taken = t; handed = w } })
  move_response :
      {p : Place} {t w : List Bytes}
      → Alone size s.done s.responses.place s.responses.taken s.responses.handed p t w
      → Step q size s (record s { responses = record { place = p; taken = t; handed = w } })
  record_request :
      {p : Bytes} (now : ℕ)
      → s.recorder_running ≡ true
      → s.requests.place ≡ sending p
      → Step q size s (record s {
        requests = record s.requests { place = forwarding p };
        recorder = step q s.recorder (request p now);
        events = s.events ++ request p now ∷ [];
      })
  record_response :
      {p : Bytes} (since now : ℕ)
      → s.recorder_running ≡ true
      → s.responses.place ≡ sending p
      → Step q size s (record s {
        responses = record s.responses { place = forwarding p };
        recorder = step q s.recorder (response p since now);
        events = s.events ++ response p since now ∷ [];
      })
  end_recorder :
      s.done ≡ true
      → s.recorder_running ≡ true
      → Step q size s (record s { recorder_running = false })
  -- `wg.Wait` and `GetRecording`, behind the deferred part of the recorder.
  return :
      s.done ≡ true
      → s.requests.place ≡ stopped
      → s.responses.place ≡ stopped
      → s.recorder_running ≡ false
      → Step q size s (record s { result = some (finish s.recorder) })

pub data Steps (q : Quoting) (size : ℕ) : System → System → Type 0 where
  here : {s : System} → Steps q size s s
  later : {s t u : System} → Steps q size s t → Step q size t u → Steps q size s u
