-- ===== src/Proxy/Goroutines/Hang.antt =====
-- A goroutine that waits for a recorder that has ended, for ever.
use k8s_jumperless.Base.{ℕ, ◌≤◌, Bool, false, none, List, ◌∷◌, ◌≡◌, refl, sym, Bytes, length}
use k8s_jumperless.Proxy.Goroutines.{
  Place, checking, reading, stopped, sending, forwarding, Alone, leave, enter, nothing, piece,
  forward, System, new_system, Step, cancel, move_request, move_response, record_request,
  record_response, end_recorder, return, Steps, here, later,
}
use k8s_jumperless.Proxy.Quoting.{Quoting}
use mathlib.Core.Path.{subst}

abbrev IsSending : Place → Type 0
IsSending checking = ⊥
IsSending reading = ⊥
IsSending stopped = ⊥
IsSending (sending p) = Unit
IsSending (forwarding p) = ⊥

-- A goroutine that sends does not move by itself.
not-Alone :
    {size : ℕ} {done : Bool} {p p' : Place} {t t' w w' : List Bytes}
    → Alone size done p t w p' t' w'
    → IsSending p
    → ⊥
not-Alone (leave d) h = h
not-Alone (enter d) h = h
not-Alone nothing h = h
not-Alone (piece short) h = h
not-Alone forward h = h

module _ (q : Quoting) (size : ℕ) where
  record IsHung (s : System) : Type 0 where
    ended : s.recorder_running ≡ false
    waiting : IsSending s.requests.place
    no_result : s.result ≡ none

  not_stopped : {p : Place} → IsSending p → p ≡ stopped → ⊥
  not_stopped h e = subst IsSending e h

  Step-IsHung : {s t : System} → Step q size s t → IsHung s → IsHung t
  Step-IsHung cancel h = record { ended = h.ended; waiting = h.waiting; no_result = h.no_result }
  Step-IsHung (move_request a) h = absurd (not-Alone a h.waiting)
  Step-IsHung (move_response a) h = record {
    ended = h.ended;
    waiting = h.waiting;
    no_result = h.no_result;
  }
  Step-IsHung (record_request now r e) h = (let x = h.ended in cc)
  Step-IsHung (record_response since now r e) h = (let x = h.ended in cc)
  Step-IsHung (end_recorder d r) h = (let x = h.ended in cc)
  Step-IsHung (return d a b r) h = absurd (not_stopped h.waiting a)

  Steps-IsHung : {s t : System} → Steps q size s t → IsHung s → IsHung t
  Steps-IsHung here h = h
  Steps-IsHung (later r st) h = Step-IsHung st (Steps-IsHung r h)

  -- When the recorder has ended and the goroutine for the requests is sending a piece to it, `Run`
  -- never returns, whatever happens from then on.
  pub run_hangs :
      (s t : System) (p : Bytes)
      → s.recorder_running ≡ false
      → s.requests.place ≡ sending p
      → s.result ≡ none
      → Steps q size s t
      → t.result ≡ none
  run_hangs s t p ended waiting no_result steps =
      (Steps-IsHung steps (record {
        ended = ended;
        waiting = subst IsSending (sym waiting) tt;
        no_result = no_result;
      })).no_result

  -- A client whose request arrives while the context ends brings the goroutines there: for every
  -- piece that fits the buffer some order of steps leads from the start to an ended recorder and a
  -- goroutine that sends the piece to it.
  pub run_reaches_hang :
      (c : ℕ) (bs : Bytes)
      → length (c ∷ bs) ≤ size
      → (s : System) × Steps q size new_system s
        × (s.recorder_running ≡ false)
        × (s.requests.place ≡ sending (c ∷ bs))
        × (s.result ≡ none)
  run_reaches_hang c bs short = (
    _,
    later
        (later (later (later here (move_request (enter refl))) (move_request (piece short))) cancel)
        (end_recorder refl refl),
    refl,
    refl,
    refl,
  )
