-- ===== src/Proxy/Goroutines/Order.antt =====
-- What is read, recorded and forwarded, and in which order.
use mathlib.Core.List.{append-nil, append_assoc}
use k8s_jumperless.Base.{
  ℕ, ◌≤◌, ◌<◌, Bool, true, false, List, [], ◌∷◌, ◌++◌, ◌≡◌, refl, sym, ap, ◌∙◌, arith, Bytes,
  length, All, All-append,
}
use k8s_jumperless.Proxy.Goroutines.{
  Place, checking, reading, stopped, sending, forwarding, Alone, leave, enter, nothing, piece,
  forward, System, new_system, Step, cancel, move_request, move_response, record_request,
  record_response, end_recorder, return, Steps, here, later,
}
use k8s_jumperless.Proxy.Quoting.{Quoting}
use k8s_jumperless.Proxy.Recorder.{Event, request, response, run_from, run}

-- The pieces of the requests, and of the responses, that were recorded.
unfoldable pub request_pieces : List Event → List Bytes
request_pieces [] = []
request_pieces (request p now ∷ es) = p ∷ request_pieces es
request_pieces (response p since now ∷ es) = request_pieces es

unfoldable pub response_pieces : List Event → List Bytes
response_pieces [] = []
response_pieces (request p now ∷ es) = response_pieces es
response_pieces (response p since now ∷ es) = p ∷ response_pieces es

request_pieces-append :
    (es ds : List Event) → request_pieces (es ++ ds) ≡ request_pieces es ++ request_pieces ds
unfolding request_pieces
request_pieces-append [] ds = refl
request_pieces-append (request p now ∷ es) ds = ap (◌∷◌ p) (request_pieces-append es ds)
request_pieces-append (response p since now ∷ es) ds = request_pieces-append es ds

response_pieces-append :
    (es ds : List Event) → response_pieces (es ++ ds) ≡ response_pieces es ++ response_pieces ds
unfolding response_pieces
response_pieces-append [] ds = refl
response_pieces-append (request p now ∷ es) ds = response_pieces-append es ds
response_pieces-append (response p since now ∷ es) ds = ap (◌∷◌ p) (response_pieces-append es ds)

-- The piece that was read and not recorded, and the one that was recorded and not forwarded.
abbrev pub unsent : Place → List Bytes
unsent checking = []
unsent reading = []
unsent stopped = []
unsent (sending p) = p ∷ []
unsent (forwarding p) = []

abbrev pub unforwarded : Place → List Bytes
unforwarded checking = []
unforwarded reading = []
unforwarded stopped = []
unforwarded (sending p) = []
unforwarded (forwarding p) = p ∷ []

-- What was read is what was recorded and at most one piece more, and what was recorded is what was
-- forwarded and at most one piece more, in the same order.
pub record InOrder (recorded : List Bytes) (place : Place) (taken handed : List Bytes)
    : Type 0 where
  pub read : taken ≡ recorded ++ unsent place
  pub sent : recorded ≡ handed ++ unforwarded place

Alone-InOrder :
    {size : ℕ} {done : Bool} {recorded : List Bytes} {p p' : Place} {t t' w w' : List Bytes}
    → Alone size done p t w p' t' w'
    → InOrder recorded p t w
    → InOrder recorded p' t' w'
Alone-InOrder (leave d) h = record { read = h.read; sent = h.sent }
Alone-InOrder (enter d) h = record { read = h.read; sent = h.sent }
Alone-InOrder nothing h = record { read = h.read; sent = h.sent }
Alone-InOrder (piece {c = c} {s = s} short) h = record {
  read = ap (λ ps. ps ++ (c ∷ s) ∷ []) (h.read ∙ append-nil _);
  sent = h.sent;
}
Alone-InOrder (forward) h = record { read = h.read; sent = h.sent ∙ sym (append-nil _) }

send-InOrder :
    {recorded taken handed : List Bytes} {place : Place} {p : Bytes}
    → place ≡ sending p
    → InOrder recorded place taken handed
    → InOrder (recorded ++ p ∷ []) (forwarding p) taken handed
send-InOrder {handed = handed} {p = p} e h = record {
  read = h.read ∙ rw (e, append-nil);
  sent = ap (λ ps. ps ++ p ∷ []) (h.sent ∙ rw (e, append-nil));
}

-- Each piece has at least one byte and fits the buffer.
abbrev pub IsPiece : ℕ → Bytes → Type 0
IsPiece size p = (0 < length p) × (length p ≤ size)

Alone-pieces :
    {size : ℕ} {done : Bool} {p p' : Place} {t t' w w' : List Bytes}
    → Alone size done p t w p' t' w'
    → All (IsPiece size) t
    → All (IsPiece size) t'
Alone-pieces (leave d) h = h
Alone-pieces (enter d) h = h
Alone-pieces nothing h = h
Alone-pieces {size} (piece {t = t} {c = c} {s = s} short) h =
    All-append (IsPiece size) t ((c ∷ s) ∷ []) h ((omega arith, short), tt)
Alone-pieces forward h = h

module _ (q : Quoting) (size : ℕ) where
  -- What holds of the goroutines at any time.
  pub record IsConsistent (s : System) : Type 0 where
    pub requests :
        InOrder (request_pieces s.events) s.requests.place s.requests.taken s.requests.handed
    pub responses :
        InOrder (response_pieces s.events) s.responses.place s.responses.taken s.responses.handed
    pub request_sizes : All (IsPiece size) s.requests.taken
    pub response_sizes : All (IsPiece size) s.responses.taken
    pub running : s.recorder_running ≡ false → s.done ≡ true
    pub ran : (es : List Event) → run_from q s.recorder es ≡ run q (s.events ++ es)

  new_system-IsConsistent : IsConsistent new_system
  unfolding run request_pieces response_pieces
  new_system-IsConsistent = record {
    requests = record { read = refl; sent = refl };
    responses = record { read = refl; sent = refl };
    request_sizes = tt;
    response_sizes = tt;
    running = λ e. cc;
    ran = λ es. refl;
  }

  Step-IsConsistent : {s t : System} → Step q size s t → IsConsistent s → IsConsistent t
  unfolding run_from request_pieces response_pieces
  Step-IsConsistent cancel h = record {
    requests = h.requests;
    responses = h.responses;
    request_sizes = h.request_sizes;
    response_sizes = h.response_sizes;
    running = λ e. refl;
    ran = h.ran;
  }
  Step-IsConsistent (move_request a) h = record {
    requests = Alone-InOrder a h.requests;
    responses = h.responses;
    request_sizes = Alone-pieces a h.request_sizes;
    response_sizes = h.response_sizes;
    running = h.running;
    ran = h.ran;
  }
  Step-IsConsistent (move_response a) h = record {
    requests = h.requests;
    responses = Alone-InOrder a h.responses;
    request_sizes = h.request_sizes;
    response_sizes = Alone-pieces a h.response_sizes;
    running = h.running;
    ran = h.ran;
  }
  Step-IsConsistent {s} (record_request {p = p} now r e) h = record {
    requests = rw (request_pieces-append s.events (request p now ∷ [])) (send-InOrder e h.requests);
    responses = rw (response_pieces-append s.events (request p now ∷ []), append-nil) h.responses;
    request_sizes = h.request_sizes;
    response_sizes = h.response_sizes;
    running = h.running;
    ran = λ es.
        h.ran (request p now ∷ es)
        ∙ ap (run q) (sym (append_assoc s.events (request p now ∷ []) es));
  }
  Step-IsConsistent {s} (record_response {p = p} since now r e) h = record {
    requests =
        rw (request_pieces-append s.events (response p since now ∷ []), append-nil) h.requests;
    responses =
        rw (response_pieces-append s.events (response p since now ∷ []))
          (send-InOrder e h.responses);
    request_sizes = h.request_sizes;
    response_sizes = h.response_sizes;
    running = h.running;
    ran = λ es.
        h.ran (response p since now ∷ es)
        ∙ ap (run q) (sym (append_assoc s.events (response p since now ∷ []) es));
  }
  Step-IsConsistent (end_recorder d r) h = record {
    requests = h.requests;
    responses = h.responses;
    request_sizes = h.request_sizes;
    response_sizes = h.response_sizes;
    running = λ e. d;
    ran = h.ran;
  }
  Step-IsConsistent (return d a b r) h = record {
    requests = h.requests;
    responses = h.responses;
    request_sizes = h.request_sizes;
    response_sizes = h.response_sizes;
    running = h.running;
    ran = h.ran;
  }

  -- At any time, for the requests and for the responses: what was read is what was recorded and at
  -- most one piece more, what was recorded is what was forwarded and at most one piece more, in the
  -- same order, and each piece has at least one byte and fits the buffer. The recorder ends only
  -- when the context is done, and its state is that of a run over what it has received.
  pub Steps-IsConsistent : {s : System} → Steps q size new_system s → IsConsistent s
  Steps-IsConsistent here = new_system-IsConsistent
  Steps-IsConsistent (later r st) = Step-IsConsistent st (Steps-IsConsistent r)
