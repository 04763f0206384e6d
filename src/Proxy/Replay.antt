-- ===== src/Proxy/Replay.antt =====
-- A recording of the proxy, played by the emulator: what the device answered is written again.
pub mod Session
use mathlib.Core.Option.{some-injective}
use mathlib.Core.Path.{subst, ap₂}
use k8s_jumperless.Base.{
  ℕ, zero, suc, ◌%◌, ◌^◌, ◌<◌, Option, none, some, List, [], ◌∷◌, ◌++◌, ◌≡◌, ◌≢◌, refl, sym, ap,
  ◌∙◌, arith, if◌then◌else◌, Bytes, str_eq, str_eq_comm, str_eq_iff, length, get_elem?, All,
  Bool-cases, inl, inr,
}
use k8s_jumperless.Emulator.Mappings.Laws.{responses_of}
use k8s_jumperless.Emulator.Mappings.{ResponseOption, RequestResponse, Mappings, add_response}
use k8s_jumperless.Emulator.Respond.Rotation.{after_sends, send_response_rotates}
use k8s_jumperless.Emulator.Respond.Written.{IsReliable, texts, send_chunks-texts}
use k8s_jumperless.Emulator.Respond.{
  Terminal, Counters, sent, find_response, send_response, chunk_text,
}
use k8s_jumperless.Proxy.Quoting.{Quoting, IsQuoting}
use k8s_jumperless.Proxy.Recorder.Exchanges.{
  answers, chunks_until, run-answers, requests-record_response, current_request-record_response,
}
use k8s_jumperless.Proxy.Recorder.{
  Event, request, response, Recorder, save_current, finish, record_response, step, run_from, run,
}
use k8s_jumperless.Strings.Space.Laws.{IsTrimmed, trim_space_fixed}
use k8s_jumperless.Strings.Space.{space_width, last_space_width}

abbrev pub IsTrimmedRequest : Event → Type 0
IsTrimmedRequest (request req now) = IsTrimmed req
IsTrimmedRequest (response res since now) = Unit

abbrev TrimmedMappings : Mappings → Type 0
TrimmedMappings = All (λ m. IsTrimmed m.request)

add_response-Trimmed :
    (ms : Mappings) (req : Bytes) (options : List ResponseOption)
    → IsTrimmed req
    → TrimmedMappings ms
    → TrimmedMappings (add_response ms req options)
unfolding add_response
add_response-Trimmed [] req options r h = (r, tt)
add_response-Trimmed (m ∷ ms) req options r h = elim (Bool-cases (str_eq m.request req)) [
  | inl e ↦ rw e h
  | inr e ↦ rw e (h.0, add_response-Trimmed ms req options r h.1)
]

save_current-Trimmed :
    (ms : Mappings) (current : Bytes) (option : Option ResponseOption)
    → IsTrimmed current
    → TrimmedMappings ms
    → TrimmedMappings (save_current ms current option)
unfolding save_current
save_current-Trimmed ms [] option r h = h
save_current-Trimmed ms (c ∷ s) none r h = h
save_current-Trimmed ms (c ∷ s) (some o) r h = add_response-Trimmed ms (c ∷ s) (o ∷ []) r h

-- Over trimmed requests the emulator finds the mapping of the very request.
pub find_response_trimmed :
    (ms : Mappings) (wanted : Bytes)
    → IsTrimmed wanted
    → TrimmedMappings ms
    → responses_of wanted ms ≢ []
    → (m : RequestResponse) × (find_response ms wanted ≡ some m)
      × (m.request ≡ wanted)
      × (m.responses ≡ responses_of wanted ms)
unfolding find_response responses_of
find_response_trimmed [] wanted w h ne = absurd (ne refl)
find_response_trimmed (m ∷ ms) wanted w h ne = elim (Bool-cases (str_eq m.request wanted)) [
  | inl e ↦ (
    m,
    rw (trim_space_fixed wanted w, trim_space_fixed m.request h.0, str_eq_comm wanted m.request, e)
        refl,
    (str_eq_iff m.request wanted).0 e,
    rw e refl,
  )
  | inr e ↦
      let (x, found, is_request, same) = find_response_trimmed ms wanted w h.1 (rw e at ne) in
      (
        x,
        rw
            (
              trim_space_fixed wanted w,
              trim_space_fixed m.request h.0,
              str_eq_comm wanted m.request,
              e,
            )
            found,
        is_request,
        rw e same,
      )
]

-- The bytes of the device's responses up to the next request.
unfoldable pub bytes_until : List Event → Bytes
bytes_until [] = []
bytes_until (request req now ∷ es) = []
bytes_until (response res since now ∷ es) = res ++ bytes_until es

-- What the device sent after each occurrence of a request.
unfoldable pub answered_bytes : Bytes → List Event → List Bytes
unfolding bytes_until
answered_bytes wanted [] = []
answered_bytes wanted (request req now ∷ es) =
    let later = answered_bytes wanted es in
    if str_eq req wanted then bytes_until es ∷ later else later
answered_bytes wanted (response res since now ∷ es) = answered_bytes wanted es

nil_IsTrimmed : IsTrimmed []
unfolding space_width last_space_width
nil_IsTrimmed = record { no_first = refl; no_last = refl }

module _ (q : Quoting) where
  run_from-Trimmed :
      (es : List Event) (r : Recorder)
      → All IsTrimmedRequest es
      → IsTrimmed r.current_request
      → TrimmedMappings r.requests
      → TrimmedMappings (run_from q r es)
  unfolding run_from step finish
  run_from-Trimmed [] r a c h =
      save_current-Trimmed r.requests r.current_request r.current_response c h
  run_from-Trimmed (request req now ∷ es) r a c h =
      run_from-Trimmed es (step q r (request req now)) a.1 a.0
        (save_current-Trimmed r.requests r.current_request r.current_response c h)
  run_from-Trimmed (response res since now ∷ es) r a c h =
      run_from-Trimmed es (record_response q r r.current_response res since now) a.1
        (subst IsTrimmed
          (sym (current_request-record_response q r r.current_response res since now)) c)
        (subst TrimmedMappings (sym (requests-record_response q r r.current_response res since now))
          h)

  pub run-Trimmed :
      (events : List Event) → All IsTrimmedRequest events → TrimmedMappings (run q events)
  unfolding run
  run-Trimmed events a = run_from-Trimmed events _ a nil_IsTrimmed tt

nil_of_length : {A : Type 0} (xs : List A) → length xs ≡ 0 → xs ≡ []
nil_of_length [] h = refl
nil_of_length (x ∷ xs) h = absurd (omega arith)

-- No request was answered yet.
abbrev pub fresh : Counters
fresh key = 0

module _ (q : Quoting) (t : Terminal) (quoting : IsQuoting q) (reliable : IsReliable t) where
  chunk_text-quote : (s : Bytes) → chunk_text q t (q.quote s) ≡ s
  unfolding chunk_text
  chunk_text-quote s = rw (quoting.unquote-quote s, chunk_text)

  pub texts-chunks_until :
      (start : ℕ) (es : List Event) → texts q t reliable (chunks_until q start es) ≡ bytes_until es
  unfolding texts chunks_until bytes_until
  texts-chunks_until start [] = refl
  texts-chunks_until start (request req now ∷ es) = refl
  texts-chunks_until start (response res since now ∷ es) =
      ap₂ (◌++◌) (chunk_text-quote res) (texts-chunks_until now es)

  length-answers :
      (wanted : Bytes) (es : List Event)
      → length (answers q wanted es) ≡ length (answered_bytes wanted es)
  unfolding answers answered_bytes
  length-answers wanted [] = refl
  length-answers wanted (request req now ∷ es) = elim (Bool-cases (str_eq req wanted)) [
    | inl e ↦ rw e (ap suc (length-answers wanted es))
    | inr e ↦ rw e (length-answers wanted es)
  ]
  length-answers wanted (response res since now ∷ es) = length-answers wanted es

  get_elem?-answers :
      (wanted : Bytes) (es : List Event) (i : ℕ) (o : ResponseOption)
      → get_elem? (answers q wanted es) i ≡ some o
      → get_elem? (answered_bytes wanted es) i ≡ some (texts q t reliable o.chunks)
  unfolding answers answered_bytes
  get_elem?-answers wanted [] i o h = cc
  get_elem?-answers wanted (request req now ∷ es) i o h = elim (Bool-cases (str_eq req wanted)) [
    | inl e ↦ rw e (go (λ i. get_elem?-answers wanted es i o) i (rw e at h))
    | inr e ↦ rw e (get_elem?-answers wanted es i o (rw e at h))
  ]
    where
      go :
          ((i : ℕ)
            → get_elem? (answers q wanted es) i ≡ some o
            → get_elem? (answered_bytes wanted es) i ≡ some (texts q t reliable o.chunks))
          → (i : ℕ)
          → get_elem? (record { chunks = chunks_until q now es } ∷ answers q wanted es) i ≡ some o
          → get_elem? (bytes_until es ∷ answered_bytes wanted es) i
            ≡ some (texts q t reliable o.chunks)
      go f zero h = ap some (
          sym (texts-chunks_until now es)
          ∙ ap (λ (p : ResponseOption). texts q t reliable p.chunks) (some-injective _ _ h))
      go f (suc i) h = f i h
  get_elem?-answers wanted (response res since now ∷ es) i o h = get_elem?-answers wanted es i o h

  -- A recording played by the emulator answers as the device did. When a request that is not
  -- empty and was recorded comes with the number k (from 0, below 2 ^ 63), the emulator finds its
  -- mapping and writes exactly the bytes that the device sent after the occurrence with index k
  -- modulo the number of its occurrences. The recorded requests have no white space at their
  -- ends, `Unquote` undoes `Quote`, and the terminal takes every write.
  pub run-replays :
      (events : List Event) (wanted : Bytes) (k : ℕ) (s : t.State)
      → All IsTrimmedRequest events
      → IsTrimmed wanted
      → wanted ≢ []
      → answered_bytes wanted events ≢ []
      → k < 2 ^ 63
      → (m : RequestResponse) × (bytes : Bytes) × (find_response (run q events) wanted ≡ some m)
        × (get_elem? (answered_bytes wanted events) (k % length (answered_bytes wanted events))
            ≡ some bytes)
        × (let state = after_sends q t k m fresh s in
            let result = send_response q t m state.0 state.1 in
            (result.0 ≡ sent) × (reliable.written result.2 ≡ reliable.written state.1 ++ bytes))
  run-replays events wanted k s a w ne found h =
      let rs = run-answers q wanted events ne in
      let index = λ (os : List ResponseOption). get_elem? os (k % length os) in
      let some_answers : answers q wanted events ≢ [] = λ e. found (
        nil_of_length (answered_bytes wanted events)
          (sym (length-answers wanted events) ∙ ap length e)) in
      let (m, finds, is_request, same) =
        find_response_trimmed (run q events) wanted w (run-Trimmed q events a)
          (λ e. some_answers (sym rs ∙ e)) in
      let all_answers : m.responses ≡ answers q wanted events = same ∙ rs in
      let (option, got, outcome, state) =
        send_response_rotates q t k m fresh s refl (λ e. some_answers (sym all_answers ∙ e)) h in
      let (ended, wrote) =
        send_chunks-texts q t reliable option.chunks (after_sends q t k m fresh s).1 in
      (
        m,
        texts q t reliable option.chunks,
        finds,
        ap (λ n. get_elem? (answered_bytes wanted events) (k % n))
              (sym (length-answers wanted events))
            ∙ get_elem?-answers wanted events _ option (ap index (sym all_answers) ∙ got),
        (outcome ∙ ended, ap reliable.written state ∙ wrote),
      )
