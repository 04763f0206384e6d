-- ===== src/Generator/Run/Sent.antt =====
-- The calls of the port that the generator makes, and where it stops.
use k8s_jumperless.Base.{
  zero, suc, Bool, true, false, Option, none, some, List, [], ◌∷◌, ◌++◌, ◌≡◌, refl, sym, ap, ◌∙◌,
  Bytes, ℤ, pos, negsuc,
}
use k8s_jumperless.Device.Port.{Serial}
use k8s_jumperless.Generator.Run.{
  GeneratorError, Outcome, checked, read_failed, read_once, reset_input_failed, reset_output_failed,
  send_requests, set_timeout, timeout_failed, write_failed,
}
use k8s_jumperless.Viper.{Request}
use mathlib.Core.List.{append-nil, append_assoc}

-- A call of the port, and behind it `failed` if it returns an error.
pub data PortCall : Type 0 where
  input_reset output_reset drained reading failed : PortCall
  writing : Bytes → PortCall
  timing : ℤ → PortCall

abbrev failure : Bool → List PortCall
failure true = []
failure false = failed ∷ []

abbrev has_read : Option Bytes → Bool
has_read (some s) = true
has_read none = false

-- A log of the calls of the port and of their errors, but for those of `Drain`.
pub record CallsLogged (serial : Serial) (log : serial.World → List PortCall) : Type 0 where
  pub log_reset_input :
      (h : serial.Handle) (w : serial.World)
      → let r = serial.reset_input_buffer h w in log r.1 ≡ log w ++ input_reset ∷ failure r.0
  pub log_reset_output :
      (h : serial.Handle) (w : serial.World)
      → let r = serial.reset_output_buffer h w in log r.1 ≡ log w ++ output_reset ∷ failure r.0
  pub log_write :
      (h : serial.Handle) (s : Bytes) (w : serial.World)
      → let r = serial.write h s w in log r.1 ≡ log w ++ writing s ∷ failure r.0
  pub log_drain :
      (h : serial.Handle) (w : serial.World) → log (serial.drain h w).1 ≡ log w ++ drained ∷ []
  pub log_timeout :
      (h : serial.Handle) (t : ℤ) (w : serial.World)
      → let r = serial.set_read_timeout h t w in log r.1 ≡ log w ++ timing t ∷ failure r.0
  pub log_read :
      (h : serial.Handle) (w : serial.World)
      → let r = serial.read h w in log r.1 ≡ log w ++ reading ∷ failure (has_read r.0)

-- The timeout is set if it is positive.
unfoldable pub timeout_calls : ℤ → List PortCall
timeout_calls (pos zero) = []
timeout_calls (pos (suc n)) = timing (pos (suc n)) ∷ []
timeout_calls (negsuc n) = []

-- The calls that send all the requests, none of which returns an error.
unfoldable pub calls_to_send : List Request → List PortCall
unfolding timeout_calls
calls_to_send [] = []
calls_to_send (req ∷ requests) =
    input_reset ∷ output_reset ∷ writing req.text ∷ drained ∷ timeout_calls req.timeout
    ++ reading ∷ calls_to_send requests

-- What is logged behind the last call.
unfoldable pub ending : Option GeneratorError → List PortCall
ending none = []
ending (some e) = failed ∷ []

module _ (serial : Serial) (meanwhile : serial.Handle → serial.World → serial.World)
    (log : serial.World → List PortCall) (laws : CallsLogged serial log)
    (quiet : (h : serial.Handle) (w : serial.World) → log (meanwhile h w) ≡ log w) where
  -- What was called of the given calls: the first ones, all of them if no error is returned, and up
  -- to the one that fails otherwise.
  pub record SentInOrder (calls : List PortCall) (w : serial.World) (r : Outcome serial meanwhile)
      : Type 0 where
    pub called : List PortCall
    pub left : List PortCall
    pub in_order : calls ≡ called ++ left
    pub logged : log r.1 ≡ log w ++ (called ++ ending r.0)
    pub complete : r.0 ≡ none → left ≡ []

  nothing_left : (w : serial.World) → SentInOrder [] w (none, w)
  unfolding ending
  nothing_left w = record {
    called = [];
    left = [];
    in_order = refl;
    logged = sym (append-nil _);
    complete = λ x. refl;
  }

  -- A call, and what follows it.
  behind :
      {c : PortCall} {calls : List PortCall} {w w1 : serial.World} {r : Outcome serial meanwhile}
      → log w1 ≡ log w ++ c ∷ []
      → SentInOrder calls w1 r
      → SentInOrder (c ∷ calls) w r
  behind {c} {calls} {w} {w1} {r} e s = record {
    called = c ∷ s.called;
    left = s.left;
    in_order = ap (◌∷◌ c) s.in_order;
    logged = s.logged ∙ ap (λ l. l ++ (s.called ++ ending r.0)) e ∙ append_assoc (log w) _ _;
    complete = s.complete;
  }

  checked-SentInOrder :
      (c : PortCall) (calls : List PortCall) (e : GeneratorError)
      (next : serial.World → Outcome serial meanwhile) (w : serial.World) (r : Bool × serial.World)
      → log r.1 ≡ log w ++ c ∷ failure r.0
      → ((w1 : serial.World) → SentInOrder calls w1 (next w1))
      → SentInOrder (c ∷ calls) w (checked serial meanwhile e next r)
  unfolding ending
  checked-SentInOrder c calls e next w (true, w1) called f = behind called (f w1)
  checked-SentInOrder c calls e next w (false, w1) called f = record {
    called = c ∷ [];
    left = calls;
    in_order = refl;
    logged = called;
    complete = λ x. cc;
  }

  -- A call behind what the goroutine does meanwhile.
  later :
      (h : serial.Handle) (w w1 : serial.World) (calls : List PortCall)
      → log w1 ≡ log (meanwhile h w) ++ calls
      → log w1 ≡ log w ++ calls
  later h w w1 calls e = e ∙ ap (λ l. l ++ calls) (quiet h w)

  unchanged :
      {calls : List PortCall} {w w1 : serial.World} {r : Outcome serial meanwhile}
      → log w1 ≡ log w
      → SentInOrder calls w1 r
      → SentInOrder calls w r
  unchanged {calls} {w} {w1} {r} e s = record {
    called = s.called;
    left = s.left;
    in_order = s.in_order;
    logged = s.logged ∙ ap (λ l. l ++ (s.called ++ ending r.0)) e;
    complete = s.complete;
  }

  set_timeout-SentInOrder :
      (h : serial.Handle) (t : ℤ) (calls : List PortCall)
      (next : serial.World → Outcome serial meanwhile) (w : serial.World)
      → ((w1 : serial.World) → SentInOrder calls w1 (next w1))
      → SentInOrder (timeout_calls t ++ calls) w (
          checked serial meanwhile timeout_failed next
            (set_timeout serial meanwhile h t (meanwhile h w)))
  unfolding timeout_calls
  set_timeout-SentInOrder h (pos zero) calls next w f = unchanged (quiet h w) (f (meanwhile h w))
  set_timeout-SentInOrder h (pos (suc n)) calls next w f =
      checked-SentInOrder (timing (pos (suc n))) calls timeout_failed next w _
        (later _ _ _ _ (laws.log_timeout h (pos (suc n)) _)) f
  set_timeout-SentInOrder h (negsuc n) calls next w f = unchanged (quiet h w) (f (meanwhile h w))

  log-read_once :
      (h : serial.Handle) (w : serial.World) (r : Option Bytes × serial.World)
      → log r.1 ≡ log w ++ reading ∷ failure (has_read r.0)
      → let checked_read = read_once serial meanwhile h r in
        log checked_read.1 ≡ log w ++ reading ∷ failure checked_read.0
  log-read_once h w (some s, w1) e = e
  log-read_once h w (none, w1) e = e

  -- For each request in order the loop resets both buffers, writes the text, drains the port, sets
  -- the timeout if it is positive, and reads once. It makes no call behind one that returns an
  -- error, but for `Drain`, and then it returns an error; if it returns none, it has made all the
  -- calls of all requests. The goroutine makes no such call.
  pub send_requests-SentInOrder :
      (h : serial.Handle) (requests : List Request) (w : serial.World)
      → SentInOrder (calls_to_send requests) w (send_requests serial meanwhile h requests w)
  unfolding send_requests calls_to_send
  send_requests-SentInOrder h [] w = nothing_left w
  send_requests-SentInOrder h (req ∷ requests) w =
      checked-SentInOrder input_reset _ reset_input_failed _ w _
        (later _ _ _ _ (laws.log_reset_input h (meanwhile h w)))
        (λ w1.
          checked-SentInOrder output_reset _ reset_output_failed _ w1 _
            (later _ _ _ _ (laws.log_reset_output h (meanwhile h w1)))
            (λ w2.
              checked-SentInOrder (writing req.text) _ write_failed _ w2 _
                (later _ _ _ _ (laws.log_write h req.text (meanwhile h w2)))
                (λ w3. behind (later _ _ _ _ (laws.log_drain h (meanwhile h w3))) (
                  set_timeout-SentInOrder h req.timeout _ _ _ (λ w4.
                    checked-SentInOrder reading _ read_failed _ w4 _
                      (log-read_once h w4 _ (later _ _ _ _ (laws.log_read h (meanwhile h w4))))
                      (send_requests-SentInOrder h requests))))))
