-- ===== src/Proxy/Recorder/Exchanges.antt =====
-- What a recording holds: for each request the responses to its occurrences, in order.
use mathlib.Core.List.{append_assoc, append-nil}
use mathlib.Core.Path.{subst}
use k8s_jumperless.Base.{
  ℕ, Option, none, some, List, [], ◌∷◌, ◌++◌, ◌≡◌, ◌≢◌, refl, sym, ap, ◌∙◌, if◌then◌else◌, Bytes,
  str_eq, str_eq_iff, Bool-cases, inl, inr,
}
use k8s_jumperless.Emulator.Mappings.Laws.{
  responses_of, responses_of-add_response, UniqueRequests, add_response-UniqueRequests,
}
use k8s_jumperless.Emulator.Mappings.{ResponseChunk, ResponseOption, Mappings}
use k8s_jumperless.Proxy.Quoting.{Quoting}
use k8s_jumperless.Proxy.Recorder.{
  Event, request, response, Recorder, save_current, finish, chunk_of, record_response, step,
  run_from, run,
}

module _ (q : Quoting) where
  -- The responses up to the next request, each timed from the event before it.
  unfoldable pub chunks_until : ℕ → List Event → List ResponseChunk
  chunks_until start [] = []
  chunks_until start (request req now ∷ es) = []
  chunks_until start (response res since now ∷ es) =
      chunk_of q res start since ∷ chunks_until now es

  -- The answers to the occurrences of one request in a run.
  unfoldable pub answers : Bytes → List Event → List ResponseOption
  unfolding chunks_until
  answers wanted [] = []
  answers wanted (request req now ∷ es) =
      let later = answers wanted es in
      if str_eq req wanted then record { chunks = chunks_until now es } ∷ later else later
  answers wanted (response res since now ∷ es) = answers wanted es

  -- What the machine will have recorded for `wanted`, from a state on.
  pending : Bytes → Bytes → Option ResponseOption → ℕ → List Event → List ResponseOption
  pending wanted current none time es = answers wanted es
  pending wanted current (some option) time es =
      let later = answers wanted es in
      if str_eq current wanted
      then record { chunks = option.chunks ++ chunks_until time es } ∷ later
      else later

  save_current-none :
      (current : Bytes) (requests : Mappings) → save_current requests current none ≡ requests
  unfolding save_current
  save_current-none [] requests = refl
  save_current-none (c ∷ s) requests = refl

  responses_of-save_current :
      (wanted current : Bytes) (requests : Mappings) (option : ResponseOption)
      → wanted ≢ []
      → responses_of wanted (save_current requests current (some option))
        ≡ responses_of wanted requests ++ (if str_eq current wanted then option ∷ [] else [])
  unfolding save_current
  responses_of-save_current wanted [] requests option ne = elim (Bool-cases (str_eq [] wanted)) [
    | inl e ↦ absurd (ne (sym ((str_eq_iff [] wanted).0 e)))
    | inr e ↦ rw e (sym (append-nil _))
  ]
  responses_of-save_current wanted (c ∷ s) requests option ne =
      responses_of-add_response wanted (c ∷ s) requests (option ∷ [])
      ∙ elim (Bool-cases (str_eq (c ∷ s) wanted)) [
        | inl e ↦ rw e
        | inr e ↦ rw e (sym (append-nil _))
      ]

  module _ (wanted : Bytes) (ne : wanted ≢ []) where
    run_from-pending :
        (es : List Event) (requests : Mappings) (current : Bytes) (option : Option ResponseOption)
        (time : ℕ)
        → responses_of wanted (
            run_from q
              (record {
                requests = requests;
                current_request = current;
                current_response = option;
                current_request_time = time;
              })
              es)
          ≡ responses_of wanted requests ++ pending wanted current option time es
    unfolding run_from answers pending step finish
    run_from-pending [] requests current none time =
        ap (responses_of wanted) (save_current-none current requests) ∙ sym (append-nil _)
    run_from-pending [] requests current (some option) time =
        responses_of-save_current wanted current requests option ne
        ∙ ap (◌++◌ (responses_of wanted requests)) (elim (Bool-cases (str_eq current wanted)) [
          | inl e ↦ rw (e, append-nil) refl
          | inr e ↦ rw e refl
        ])
    run_from-pending (request req now ∷ es) requests current none time =
        run_from-pending es (save_current requests current none) req (some (record { chunks = [] }))
          now
        ∙ ap (λ ms. responses_of wanted ms ++ answers wanted (request req now ∷ es))
            (save_current-none current requests)
    run_from-pending (request req now ∷ es) requests current (some option) time =
        run_from-pending es (save_current requests current (some option)) req
          (some (record { chunks = [] })) now
        ∙ ap (λ os. os ++ answers wanted (request req now ∷ es))
            (responses_of-save_current wanted current requests option ne)
        ∙ append_assoc (responses_of wanted requests) _ _
        ∙ ap (◌++◌ (responses_of wanted requests)) (elim (Bool-cases (str_eq current wanted)) [
          | inl e ↦ rw (e, append-nil) refl
          | inr e ↦ rw e refl
        ])
    run_from-pending (response res since now ∷ es) requests current none time =
        run_from-pending es requests current none time
    run_from-pending (response res since now ∷ es) requests current (some option) time =
        run_from-pending es requests current
          (some (record { chunks = option.chunks ++ chunk_of q res time since ∷ [] })) now
        ∙ rw append_assoc

  -- A recording holds, for each request that is not empty, one response for each of its
  -- occurrences, in order: the responses of the device up to the next request of any kind, each
  -- as a quoted chunk with the time since the event before it. Responses that come before the
  -- first request are dropped.
  pub run-answers :
      (wanted : Bytes) (events : List Event)
      → wanted ≢ []
      → responses_of wanted (run q events) ≡ answers wanted events
  unfolding run responses_of pending
  run-answers wanted events ne = run_from-pending wanted ne events [] [] none 0

  save_current-UniqueRequests :
      (current : Bytes) (requests : Mappings) (option : Option ResponseOption)
      → UniqueRequests requests
      → UniqueRequests (save_current requests current option)
  unfolding save_current
  save_current-UniqueRequests [] requests option u = u
  save_current-UniqueRequests (c ∷ s) requests none u = u
  save_current-UniqueRequests (c ∷ s) requests (some option) u =
      add_response-UniqueRequests (c ∷ s) requests (option ∷ []) u

  pub current_request-record_response :
      (r : Recorder) (option : Option ResponseOption) (res : Bytes) (since now : ℕ)
      → (record_response q r option res since now).current_request ≡ r.current_request
  unfolding record_response
  current_request-record_response r none res since now = refl
  current_request-record_response r (some current) res since now = refl

  pub requests-record_response :
      (r : Recorder) (option : Option ResponseOption) (res : Bytes) (since now : ℕ)
      → (record_response q r option res since now).requests ≡ r.requests
  unfolding record_response
  requests-record_response r none res since now = refl
  requests-record_response r (some current) res since now = refl

  run_from-UniqueRequests :
      (es : List Event) (r : Recorder)
      → UniqueRequests r.requests
      → UniqueRequests (run_from q r es)
  unfolding run_from step finish
  run_from-UniqueRequests [] r u =
      save_current-UniqueRequests r.current_request r.requests r.current_response u
  run_from-UniqueRequests (request req now ∷ es) r u =
      run_from-UniqueRequests es (step q r (request req now))
        (save_current-UniqueRequests r.current_request r.requests r.current_response u)
  run_from-UniqueRequests (response res since now ∷ es) r u =
      run_from-UniqueRequests es (record_response q r r.current_response res since now)
        (subst UniqueRequests (sym (requests-record_response r r.current_response res since now)) u)

  -- A recording has one mapping for each request.
  pub run-UniqueRequests : (events : List Event) → UniqueRequests (run q events)
  unfolding run
  run-UniqueRequests events = run_from-UniqueRequests events _ tt
