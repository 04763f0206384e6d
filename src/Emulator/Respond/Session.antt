-- ===== src/Emulator/Respond/Session.antt =====
-- What the emulator writes over a session of requests.
use mathlib.Core.Path.{subst}
use mathlib.Core.List.{append-nil, append_assoc}
use k8s_jumperless.Base.{
  ℕ, suc, ◌+◌, ◌%◌, ◌^◌, ◌<◌, ◌≤◌, Bool, false, Bool-cases, inl, inr, Option, none, some, List, [],
  ◌∷◌, ◌++◌, ◌≡◌, ◌≢◌, refl, sym, ap, ◌∙◌, arith, if◌then◌else◌, map, All, Bytes, str_eq, length,
  get_elem?,
}
use k8s_jumperless.Emulator.Mappings.{Mappings, RequestResponse, ResponseOption}
use k8s_jumperless.Emulator.Respond.Requests.{find_response_trimmed_request, trim_space_nil}
use k8s_jumperless.Emulator.Respond.Rotation.{send_response_picks}
use k8s_jumperless.Emulator.Respond.Written.{IsReliable, send_chunks-texts, texts}
use k8s_jumperless.Emulator.Respond.{
  Counters, Handler, Terminal, answer, bytes, count_request, find_response, handle_read,
  handle_reads, no_responses, send_option, send_response,
}
use k8s_jumperless.Proxy.Quoting.{Quoting}
use k8s_jumperless.Strings.Space.{trim_space}

-- Is the request with this mapping answered by one of the responses of `key`?
unfoldable pub is_answered : Bytes → Option RequestResponse → Bool
is_answered key none = false
is_answered key (some m) = elim m.responses [ [] ↦ false | o ∷ os ↦ str_eq m.request key ]

-- How many of the requests are answered by responses of `key`.
unfoldable pub times : Mappings → Bytes → List Bytes → ℕ
unfolding is_answered find_response
times ms key [] = 0
times ms key (req ∷ past) =
    let before = times ms key past in
    if is_answered key (find_response ms req) then suc before else before

times-length : (ms : Mappings) (key : Bytes) (past : List Bytes) → times ms key past ≤ length past
unfolding times
times-length ms key [] = omega arith
times-length ms key (req ∷ past) =
    let below = times-length ms key past in
    elim (Bool-cases (is_answered key (find_response ms req))) [
      | inl e ↦ rw e (omega arith)
      | inr e ↦ rw e (omega arith)
    ]

module _ (q : Quoting) (t : Terminal) (reliable : IsReliable t) (ms : Mappings) where
  open reliable use {written}

  unfoldable pub option_texts : Option ResponseOption → Bytes
  unfolding texts
  option_texts none = []
  option_texts (some o) = texts q t reliable o.chunks

  -- The answer to a request with this mapping behind the requests `past`, the last one first: the
  -- texts of the response whose turn it is, and nothing without a mapping or a response.
  unfoldable pub reply : List Bytes → Option RequestResponse → Bytes
  unfolding option_texts times
  reply past none = []
  reply past (some m) =
      option_texts (get_elem? m.responses (times ms m.request past % length m.responses))

  -- The answers to the requests, one behind the other.
  unfoldable pub replies : List Bytes → List Bytes → Bytes
  unfolding reply find_response
  replies past [] = []
  replies past (req ∷ reqs) = reply past (find_response ms req) ++ replies (req ∷ past) reqs

  -- The counters are those of the requests so far.
  abbrev Counted : List Bytes → Counters → Type 0
  Counted past counters = (key : Bytes) → counters key ≡ times ms key past

  -- The handler behind a request with the mapping `o`.
  record Answered (past : List Bytes) (o : Option RequestResponse) (h h' : Handler q t)
      : Type 0 where
    empty : h'.buffer ≡ []
    wrote : written h'.terminal ≡ written h.terminal ++ reply past o
    counted :
        (key : Bytes)
        → h'.counters key
          ≡ (if is_answered key o then suc (times ms key past) else times ms key past)

  count_request-below :
      (request key : Bytes) (counters : Counters)
      → counters key < 2 ^ 63
      → count_request request counters key
        ≡ (if str_eq request key then suc (counters key) else counters key)
  unfolding count_request
  count_request-below request key counters h = elim (Bool-cases (str_eq request key)) [
    | inl e ↦ rw e (omega arith)
    | inr e ↦ rw e refl
  ]

  send_option-texts :
      (o : Option ResponseOption) (s : t.State)
      → written (send_option q t o s).1 ≡ written s ++ option_texts o
  unfolding send_option option_texts
  send_option-texts none s = sym (append-nil _)
  send_option-texts (some o) s = (send_chunks-texts q t reliable o.chunks s).1

  -- A mapping without responses leaves the terminal and the counters.
  unanswered :
      (past : List Bytes) (m : RequestResponse) (h : Handler q t)
      → Counted past h.counters
      → m.responses ≡ []
      → Answered past (some m) h (answer q t h (some m))
  unfolding answer reply option_texts is_answered
  unanswered past m h c e =
      let same : send_response q t m h.counters h.terminal
          ≡ (no_responses, h.counters, h.terminal) =
        rw (e, send_response) in
      record {
        empty = refl;
        wrote = ap (λ r. written r.2) same ∙ rw e (sym (append-nil _));
        counted = λ key. ap (λ r. r.1 key) same ∙ c key ∙ rw e refl;
      }

  answered :
      (past : List Bytes) (m : RequestResponse) (o : ResponseOption) (os : List ResponseOption)
      (h : Handler q t)
      → Counted past h.counters
      → length past < 2 ^ 63
      → m.responses ≡ o ∷ os
      → Answered past (some m) h (answer q t h (some m))
  unfolding answer reply is_answered
  answered past m o os h c short e =
      let below : (key : Bytes) → h.counters key < 2 ^ 63 =
        λ key. (let n = times-length ms key past in let k = c key in omega arith) in
      let picked =
        send_response_picks q t m h.counters h.terminal (below m.request)
          (λ none_left. (let k : o ∷ os ≡ [] = sym e ∙ none_left in cc)) in
      record {
        empty = refl;
        wrote =
            ap (λ r. written r.2) picked
            ∙ send_option-texts _ h.terminal
            ∙ ap
                (λ n.
                  written h.terminal
                  ++ option_texts (get_elem? m.responses (n % length m.responses)))
                (c m.request);
        counted = λ key.
            ap (λ r. r.1 key) picked
            ∙ count_request-below m.request key h.counters (below key)
            ∙ ap (λ n. if str_eq m.request key then suc n else n) (c key)
            ∙ rw e refl;
      }

  answer-Answered :
      (past : List Bytes) (o : Option RequestResponse) (h : Handler q t)
      → Counted past h.counters
      → length past < 2 ^ 63
      → Answered past o h (answer q t h o)
  unfolding answer reply is_answered
  answer-Answered past none h c short = record {
    empty = refl;
    wrote = sym (append-nil _);
    counted = c;
  }
  answer-Answered past (some m) h c short =
      elim m.responses
          as (λ os. m.responses ≡ os → Answered past (some m) h (answer q t h (some m))) [
            | [] ↦ λ e. unanswered past m h c e
            | o ∷ os ↦ λ e. answered past m o os h c short e
          ]
        refl

  -- A read with what trims to a request.
  trimmed-Answered :
      (past : List Bytes) (b : ℕ) (bs : Bytes) (h : Handler q t) (s : Bytes)
      → trim_space (h.buffer ++ b ∷ bs) ≡ s
      → s ≢ []
      → Counted past h.counters
      → length past < 2 ^ 63
      → Answered past (find_response ms s) h (handle_read q t ms h (bytes (b ∷ bs)))
  unfolding handle_read
  trimmed-Answered past b bs h [] e ne c short = absurd (ne refl)
  trimmed-Answered past b bs h (x ∷ s) e ne c short =
      let r =
        answer-Answered past (find_response ms (x ∷ s)) (record h { buffer = h.buffer ++ b ∷ bs }) c
          short in
      rw (e, handle_read) (record { empty = r.empty; wrote = r.wrote; counted = r.counted })

  handle_read-Answered :
      (past : List Bytes) (req : Bytes) (h : Handler q t)
      → h.buffer ≡ []
      → trim_space req ≢ []
      → Counted past h.counters
      → length past < 2 ^ 63
      → Answered past (find_response ms req) h (handle_read q t ms h (bytes req))
  handle_read-Answered past [] h empty ne c short = absurd (ne trim_space_nil)
  handle_read-Answered past (b ∷ bs) h empty ne c short =
      subst (λ o. Answered past o h (handle_read q t ms h (bytes (b ∷ bs))))
        (find_response_trimmed_request ms (b ∷ bs))
        (trimmed-Answered past b bs h (trim_space (b ∷ bs))
          (ap (λ x. trim_space (x ++ b ∷ bs)) empty) ne c short)

  session :
      (past reqs : List Bytes) (h : Handler q t)
      → All (λ req. trim_space req ≢ []) reqs
      → h.buffer ≡ []
      → Counted past h.counters
      → length past + length reqs ≤ 2 ^ 63
      → written (handle_reads q t ms h (map bytes reqs)).terminal
        ≡ written h.terminal ++ replies past reqs
  unfolding handle_reads replies times
  session past [] h a empty c short = sym (append-nil _)
  session past (req ∷ reqs) h a empty c short =
      let r = handle_read-Answered past req h empty a.0 c (omega arith) in
      session (req ∷ past) reqs (handle_read q t ms h (bytes req)) a.1 r.empty r.counted
        (omega arith)
      ∙ ap (λ w. w ++ replies (req ∷ past) reqs) r.wrote
      ∙ append_assoc (written h.terminal) _ _

  -- The emulator answers a session in which each read brings a whole request: it writes, for each
  -- request in order, the response whose turn it is among those of the mapping that is found, which
  -- is the index of the request among those answered by the mapping, modulo the number of its
  -- responses; a request without a mapping or a response is not answered. No request is blank,
  -- there are at most 2 ^ 63, the counters are 0 at first, and the terminal takes every write.
  pub handle_reads-replies :
      (reqs : List Bytes) (s : t.State)
      → All (λ req. trim_space req ≢ []) reqs
      → length reqs ≤ 2 ^ 63
      → written
          (handle_reads q t ms
            (record { buffer = []; counters = λ key. 0; terminal = s })
            (map bytes reqs)).terminal
        ≡ written s ++ replies [] reqs
  unfolding times
  handle_reads-replies reqs s a short =
      session [] reqs (record { buffer = []; counters = λ key. 0; terminal = s }) a refl
        (λ key. refl) (omega arith)
