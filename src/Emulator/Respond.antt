-- ===== src/Emulator/Respond.antt =====
-- `findResponse`, `sendResponse` and `handleRequests` of utils/internal/emulator/emulator.go.
pub mod Rotation
pub mod Requests
pub mod Session
pub mod Untimed
pub mod Written
use k8s_jumperless.Base.{
  ℕ, zero, suc, ◌+◌, ◌-◌, ◌%◌, ◌^◌, ◌==◌, ltb, Bool, true, false, Option, none, some, List, [], ◌∷◌,
  ◌++◌, if◌then◌else◌, Bytes, str_eq, length, get_elem?, ℤ, pos, ◌+ℤ◌, wrap_int64, is_positive,
}
use k8s_jumperless.Emulator.Mappings.{ResponseChunk, ResponseOption, RequestResponse, Mappings}
use k8s_jumperless.Proxy.Quoting.{Quoting}
use k8s_jumperless.Strings.Space.{trim_space}

-- The pseudo terminal, the clock and the random numbers: a write gives the number of bytes
-- written, or `none` for an error.
pub record Terminal : Type 1 where
  pub State : Type 0
  pub write : Bytes → State → Option ℕ × State
  pub sleep : ℤ → State → State
  pub int63n : ℤ → State → ℤ × State

-- `requestCounters`: an `int` for each request, as a pattern of 64 bits, 0 for a missing key.
abbrev pub Counters : Type 0
Counters = Bytes → ℕ

-- What `sendResponse` ends with; the last is the panic of an index out of range.
pub data Outcome : Type 0 where
  sent no_responses write_failed index_panic : Outcome
  partial_write : ℕ → ℕ → Outcome

-- `findResponse`: the first mapping whose request is the same up to white space at the ends.
unfoldable pub find_response : Mappings → Bytes → Option RequestResponse
unfolding trim_space
find_response [] request = none
find_response (m ∷ ms) request =
    if str_eq (trim_space request) (trim_space m.request) then some m else find_response ms request

-- `requestIndex % n` on an `int`; a counter that has overflowed is negative, and so is its
-- remainder unless that is 0.
unfoldable pub remainder : ℕ → ℕ → Option ℕ
remainder counter n =
    if ltb counter (2 ^ 63)
    then some (counter % n)
    else if (2 ^ 64 - counter) % n == 0
    then some 0
    else none

-- The `switch` on the number of responses, for a positive one.
unfoldable pub response_index : ℕ → ℕ → Option ℕ
unfolding remainder
response_index counter zero = none
response_index counter (suc zero) = some 0
response_index counter (suc (suc n)) = remainder counter (suc (suc n))

-- `e.requestCounters[requestKey]++`
unfoldable pub count_request : Bytes → Counters → Counters
count_request key counters k = if str_eq key k then (counters k + 1) % 2 ^ 64 else counters k

module _ (q : Quoting) (t : Terminal) where
  -- The text of a chunk: unquoted if it can be.
  unfoldable pub chunk_text : Bytes → Bytes
  chunk_text text = elim (q.unquote text) [ none ↦ text | some unquoted ↦ unquoted ]

  -- The delay with its jitter, a sum of two `int64`s that wraps, and the state after the random number.
  unfoldable pub chunk_delay : ResponseChunk → t.State → ℤ × t.State
  unfolding ◌+ℤ◌ wrap_int64
  chunk_delay chunk s =
      if is_positive chunk.jitter_max
      then (let (jitter, s') = t.int63n chunk.jitter_max s in
          (wrap_int64 (chunk.delay +ℤ jitter), s'))
      else (chunk.delay, s)

  unfoldable pub wait : ℤ → t.State → t.State
  wait delay s = if is_positive delay then t.sleep delay s else s

  -- What follows a write of `text`; `rest` sends the chunks behind it.
  abbrev pub after_write :
      Bytes → (t.State → Outcome × t.State) → Option ℕ × t.State → Outcome × t.State
  after_write text rest (none, s) = (write_failed, s)
  after_write text rest (some n, s) = elim (n == length text) [
    | true ↦ rest s
    | false ↦ (partial_write n (length text), s)
  ]

  -- The loop over the chunks.
  unfoldable pub send_chunks : List ResponseChunk → t.State → Outcome × t.State
  unfolding chunk_text chunk_delay wait
  send_chunks [] s = (sent, s)
  send_chunks (chunk ∷ chunks) s =
      let (delay, s') = chunk_delay chunk s in
      let text = chunk_text chunk.text in
      after_write text (send_chunks chunks) (t.write text (wait delay s'))

  unfoldable pub send_option : Option ResponseOption → t.State → Outcome × t.State
  unfolding send_chunks
  send_option none s = (index_panic, s)
  send_option (some option) s = send_chunks option.chunks s

  abbrev option_at : List ResponseOption → Option ℕ → Option ResponseOption
  option_at options none = none
  option_at options (some i) = get_elem? options i

  -- `sendResponse`
  unfoldable pub send_response : RequestResponse → Counters → t.State → Outcome × Counters × t.State
  unfolding response_index count_request send_option
  send_response m counters s = elim m.responses [
    | [] ↦ (no_responses, counters, s)
    | o ∷ os ↦
        let option = option_at (o ∷ os) (response_index (counters m.request) (length (o ∷ os))) in
        let (outcome, s') = send_option option s in (outcome, count_request m.request counters, s')
  ]

  -- What a read of the terminal brings: a timeout, the end of the input, an error, or bytes.
  -- The `continue`s of the first three are alike up to what they log.
  pub data Read : Type 0 where
    timeout end_of_input failed : Read
    bytes : Bytes → Read

  pub record Handler : Type 0 where
    pub buffer : Bytes
    pub counters : Counters
    pub terminal : t.State

  -- An answer to the request, if a mapping fits; the buffer is reset in any case.
  unfoldable pub answer : Handler → Option RequestResponse → Handler
  unfolding send_response
  answer h none = record h { buffer = [] }
  answer h (some m) =
      let (outcome, counters, s) = send_response m h.counters h.terminal in
      record { buffer = []; counters = counters; terminal = s }

  -- One turn of the loop of `handleRequests`.
  unfoldable pub handle_read : Mappings → Handler → Read → Handler
  unfolding trim_space find_response answer
  handle_read ms h timeout = h
  handle_read ms h end_of_input = h
  handle_read ms h failed = h
  handle_read ms h (bytes []) = h
  handle_read ms h (bytes (b ∷ bs)) =
      let h' = record h { buffer = h.buffer ++ b ∷ bs } in
      elim (trim_space (h.buffer ++ b ∷ bs)) [
        | [] ↦ h'
        | c ∷ s ↦ answer h' (find_response ms (c ∷ s))
      ]

  unfoldable pub handle_reads : Mappings → Handler → List Read → Handler
  unfolding handle_read
  handle_reads ms h [] = h
  handle_reads ms h (r ∷ rs) = handle_reads ms (handle_read ms h r) rs
