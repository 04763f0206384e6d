-- ===== src/Proxy/Replay/Session.antt =====
-- A recorded session, played again in the same order.
use mathlib.Core.List.{append-nil, append_assoc}
use mathlib.Core.Path.{ap₂}
use native.Mathlib.Nat.{mod-eq_of_lt}
use k8s_jumperless.Base.{
  ℕ, zero, suc, ◌%◌, ◌^◌, ◌<◌, ◌≤◌, Bool-cases, inl, inr, some, List, [], ◌∷◌, ◌++◌, ◌≡◌, ◌≢◌, refl,
  sym, ap, ◌∙◌, arith, if◌then◌else◌, map, All, Bytes, str_eq, str_eq_refl, length, get_elem?,
}
use k8s_jumperless.Emulator.Mappings.{Mappings, RequestResponse, ResponseOption}
use k8s_jumperless.Emulator.Respond.Session.{
  handle_reads-replies, is_answered, option_texts, replies, reply, times,
}
use k8s_jumperless.Emulator.Respond.Written.{IsReliable}
use k8s_jumperless.Emulator.Respond.{Terminal, bytes, find_response, handle_reads}
use k8s_jumperless.Proxy.Quoting.{IsQuoting, Quoting}
use k8s_jumperless.Proxy.Recorder.Exchanges.{answers, chunks_until, run-answers}
use k8s_jumperless.Proxy.Recorder.{Event, request, response, run}
use k8s_jumperless.Proxy.Replay.{
  IsTrimmedRequest, bytes_until, find_response_trimmed, run-Trimmed, texts-chunks_until,
}
use k8s_jumperless.Strings.Space.Laws.{IsTrimmed, trim_space_fixed}
use k8s_jumperless.Strings.Space.{trim_space}

-- The requests of a session, in order.
unfoldable pub requests_of : List Event → List Bytes
requests_of [] = []
requests_of (request req now ∷ es) = req ∷ requests_of es
requests_of (response res since now ∷ es) = requests_of es

-- What the device sent behind the first request.
unfoldable pub sent_by_device : List Event → Bytes
unfolding bytes_until
sent_by_device [] = []
sent_by_device (request req now ∷ es) = bytes_until es ++ sent_by_device es
sent_by_device (response res since now ∷ es) = sent_by_device es

-- How often a request is among others.
unfoldable pub occurrences : Bytes → List Bytes → ℕ
occurrences wanted [] = 0
occurrences wanted (req ∷ reqs) =
    let others = occurrences wanted reqs in if str_eq req wanted then suc others else others

-- The answer to a request that comes behind `pre`.
get_elem?-answers_behind :
    (q : Quoting) (wanted : Bytes) (now : ℕ) (pre es : List Event)
    → get_elem?
        (answers q wanted (pre ++ request wanted now ∷ es))
        (occurrences wanted (requests_of pre))
      ≡ some (record { chunks = chunks_until q now es })
unfolding answers requests_of occurrences
get_elem?-answers_behind q wanted now [] es = rw (str_eq_refl wanted) refl
get_elem?-answers_behind q wanted now (request req time ∷ pre) es =
    elim (Bool-cases (str_eq req wanted)) [
      | inl e ↦ rw e (get_elem?-answers_behind q wanted now pre es)
      | inr e ↦ rw e (get_elem?-answers_behind q wanted now pre es)
    ]
get_elem?-answers_behind q wanted now (response res since time ∷ pre) es =
    get_elem?-answers_behind q wanted now pre es

occurrences-append :
    (wanted req : Bytes) (reqs : List Bytes)
    → occurrences wanted (reqs ++ req ∷ [])
      ≡ (if str_eq req wanted then suc (occurrences wanted reqs) else occurrences wanted reqs)
unfolding occurrences
occurrences-append wanted req [] = refl
occurrences-append wanted req (r ∷ reqs) = ground (arith, occurrences-append wanted req reqs)

requests_of-append :
    (es ds : List Event) → requests_of (es ++ ds) ≡ requests_of es ++ requests_of ds
unfolding requests_of
requests_of-append [] ds = refl
requests_of-append (request req now ∷ es) ds = ap (◌∷◌ req) (requests_of-append es ds)
requests_of-append (response res since now ∷ es) ds = requests_of-append es ds

is_answered-some :
    (key : Bytes) (m : RequestResponse)
    → m.responses ≢ []
    → is_answered key (some m) ≡ str_eq m.request key
unfolding is_answered
is_answered-some key m ne =
    elim m.responses as (λ os. m.responses ≡ os → is_answered key (some m) ≡ str_eq m.request key) [
      | [] ↦ λ e. absurd (ne e)
      | o ∷ os ↦ λ e. rw (e, is_answered) refl
    ]
      refl

-- A trimmed request that is not empty is not blank.
pub requests-not_blank :
    (es : List Event)
    → All IsTrimmedRequest es
    → All (λ req. req ≢ []) (requests_of es)
    → All (λ req. trim_space req ≢ []) (requests_of es)
unfolding requests_of
requests-not_blank [] w ne = tt
requests-not_blank (request req now ∷ es) w ne =
    (λ blank. ne.0 (sym (trim_space_fixed req w.0) ∙ blank), requests-not_blank es w.1 ne.1)
requests-not_blank (response res since now ∷ es) w ne = requests-not_blank es w.1 ne

-- An index at which there is an element is below the length.
get_elem?-length :
    {A : Type 0} (xs : List A) (i : ℕ) {x : A} → get_elem? xs i ≡ some x → i < length xs
get_elem?-length [] i e = cc
get_elem?-length (y ∷ ys) zero e = omega arith
get_elem?-length (y ∷ ys) (suc i) e = (let below = get_elem?-length ys i e in omega arith)

module _ (q : Quoting) (t : Terminal) (reliable : IsReliable t) (events : List Event)
    (trimmed : All IsTrimmedRequest events) where
  abbrev recording : Mappings
  recording = run q events

  -- A recorded request finds a mapping of its own, with its answers.
  abbrev IsKnown : Bytes → Type 0
  IsKnown req = (key : Bytes) → is_answered key (find_response recording req) ≡ str_eq req key

  times-IsKnown :
      (key : Bytes) (past : List Bytes)
      → All IsKnown past
      → times recording key past ≡ occurrences key past
  unfolding times occurrences
  times-IsKnown key [] a = refl
  times-IsKnown key (req ∷ past) a =
      ap (λ b. if b then suc (times recording key past) else times recording key past) (a.0 key)
      ∙ ap (λ n. if str_eq req key then suc n else n) (times-IsKnown key past a.1)

  find_recorded :
      (req : Bytes) (o : ResponseOption) (i : ℕ)
      → IsTrimmed req
      → req ≢ []
      → get_elem? (answers q req events) i ≡ some o
      → (m : RequestResponse) × (find_response recording req ≡ some m)
        × (m.request ≡ req)
        × (m.responses ≡ answers q req events)
  find_recorded req o i w ne e =
      let rs = run-answers q req events ne in
      let (m, found, is_request, same) =
        find_response_trimmed recording req w (run-Trimmed q events trimmed)
          (λ none_left. (let k = ap (λ os. get_elem? os i) (sym none_left ∙ rs) ∙ e in cc)) in
      (m, found, is_request, same ∙ rs)

  module _ (quoting : IsQuoting q) where
    -- The request that comes behind `pre` is answered as it was, and is known from then on.
    request-replayed :
        (past : List Bytes) (req : Bytes) (now : ℕ) (pre es : List Event)
        → pre ++ request req now ∷ es ≡ events
        → IsTrimmed req
        → req ≢ []
        → All IsKnown past
        → ((wanted : Bytes) → occurrences wanted past ≡ occurrences wanted (requests_of pre))
        → (reply q t reliable recording past (find_response recording req) ≡ bytes_until es)
          × IsKnown req
    unfolding reply option_texts
    request-replayed past req now pre es split w ne known same =
        let i = occurrences req (requests_of pre) in
        let o : ResponseOption = record { chunks = chunks_until q now es } in
        let got : get_elem? (answers q req events) i ≡ some o =
          ap (λ all. get_elem? (answers q req all) i) (sym split)
          ∙ get_elem?-answers_behind q req now pre es in
        let (m, found, is_request, has) = find_recorded req o i w ne got in
        let turn : times recording m.request past ≡ i =
          times-IsKnown m.request past known ∙ ap (λ r. occurrences r past) is_request ∙ same req in
        let index : times recording m.request past % length m.responses ≡ i =
          ap (λ n. n % length m.responses) turn
          ∙ ap (λ (os : List ResponseOption). i % length os) has
          ∙ mod-eq_of_lt (get_elem?-length (answers q req events) i got) in
        let answer : get_elem? m.responses (times recording m.request past % length m.responses)
            ≡ some o =
          ap (get_elem? m.responses) index ∙ ap (λ os. get_elem? os i) has ∙ got in
        (
          ap (reply q t reliable recording past) found
              ∙ ap (option_texts q t reliable recording) answer
              ∙ texts-chunks_until q t quoting reliable now es,
          λ key.
              ap (is_answered key) found
              ∙ is_answered-some key m (λ none_left.
                (let k = ap (λ os. get_elem? os i) (sym none_left ∙ has) ∙ got in cc))
              ∙ ap (λ r. str_eq r key) is_request,
        )

    replies-session :
        (past : List Bytes) (pre es : List Event)
        → pre ++ es ≡ events
        → All IsTrimmedRequest es
        → All (λ req. req ≢ []) (requests_of es)
        → All IsKnown past
        → ((wanted : Bytes) → occurrences wanted past ≡ occurrences wanted (requests_of pre))
        → replies q t reliable recording past (requests_of es) ≡ sent_by_device es
    unfolding requests_of sent_by_device replies occurrences
    replies-session past pre [] split w ne known same = refl
    replies-session past pre (response res since now ∷ es) split w ne known same =
        replies-session past (pre ++ response res since now ∷ []) es (append_assoc pre _ es ∙ split)
          w.1 ne known
          (λ wanted.
            same wanted ∙ ap (occurrences wanted) (sym (requests_of-append pre _ ∙ append-nil _)))
    replies-session past pre (request req now ∷ es) split w ne known same =
        let (replayed, is_known) = request-replayed past req now pre es split w.0 ne.0 known same in
        let later =
          replies-session (req ∷ past) (pre ++ request req now ∷ []) es
            (append_assoc pre _ es ∙ split) w.1 ne.1 (is_known, known)
            (λ wanted.
              ap (λ n. if str_eq req wanted then suc n else n) (same wanted)
              ∙ sym (
                  ap (occurrences wanted) (requests_of-append pre _)
                  ∙ occurrences-append wanted req (requests_of pre))) in
        ap₂ (◌++◌) replayed later

-- A recorded session that is played again in the same order gets the same answers: the emulator with
-- the mappings of the recording, whose reads bring the recorded requests in their order, writes
-- exactly the bytes that the device sent behind the first request, in order. The requests are not
-- empty and have no white space at their ends, there are at most 2 ^ 63, `Unquote` undoes `Quote`,
-- the counters are 0 at first, and the terminal takes every write.
pub session-replays :
    (q : Quoting) (t : Terminal) (quoting : IsQuoting q) (reliable : IsReliable t)
    (events : List Event) (s : t.State)
    → All IsTrimmedRequest events
    → All (λ req. req ≢ []) (requests_of events)
    → length (requests_of events) ≤ 2 ^ 63
    → reliable.written
        (handle_reads q t
          (run q events)
          (record { buffer = []; counters = λ key. 0; terminal = s })
          (map bytes (requests_of events))).terminal
      ≡ reliable.written s ++ sent_by_device events
unfolding requests_of
session-replays q t quoting reliable events s w ne short =
    handle_reads-replies q t reliable (run q events) (requests_of events) s
      (requests-not_blank events w ne) short
    ∙ ap (◌++◌ (reliable.written s))
        (replies-session q t reliable events w quoting [] [] events refl w ne tt (λ wanted. refl))
