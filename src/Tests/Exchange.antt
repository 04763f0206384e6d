-- ===== src/Tests/Exchange.antt =====
-- A session that the proxy records and the emulator plays.
use k8s_jumperless.Base.{
  ◌%◌, ◌^◌, ◌≤◌, map, ◌≡◌, ◌≢◌, ◌∷◌, ◌++◌, [], All, Bytes, List, codes, get_elem?, length, some,
  refl, arith, pos, if◌then◌else◌, str_eq,
}
use k8s_jumperless.Emulator.Mappings.Laws.{UniqueRequests, get-add_response, responses_of}
use k8s_jumperless.Emulator.Mappings.{
  Mappings, RequestResponse, ResponseChunk, ResponseOption, add_response, get,
}
use k8s_jumperless.Emulator.Respond.Requests.{handle_reads-buffer}
use k8s_jumperless.Emulator.Respond.Rotation.{after_sends}
use k8s_jumperless.Emulator.Respond.Session.{handle_reads-replies, replies}
use k8s_jumperless.Emulator.Respond.Untimed.{handle_reads-untimed, untimed}
use k8s_jumperless.Emulator.Respond.{
  Handler, Read, bytes, find_response, handle_reads, send_response, sent, timeout,
}
use k8s_jumperless.Proxy.Recorder.Exchanges.{answers, run-UniqueRequests, run-answers}
use k8s_jumperless.Proxy.Recorder.{Event, request, response, run}
use k8s_jumperless.Proxy.Replay.Session.{requests_of, sent_by_device, session-replays}
use k8s_jumperless.Proxy.Replay.{IsTrimmedRequest, answered_bytes, fresh, run-replays}
use k8s_jumperless.Strings.Space.Laws.{IsTrimmed}
use k8s_jumperless.Strings.Space.{
  ascii_space, last_space_width, space_width, three_byte_space, trim_space, two_byte_space,
}
use k8s_jumperless.Tests.Examples.{marking, marking-IsQuoting, paper, paper-IsReliable}

-- Two answers to `?`, the second in two pieces, and one to `n`.
abbrev session : List Event
session =
    request (codes "?") 0
    ∷ response (codes "one") 5 6
    ∷ request (codes "n") 10
    ∷ response (codes "nets") 12 13
    ∷ request (codes "?") 20
    ∷ response (codes "tw") 30 31
    ∷ response (codes "o") 40 41
    ∷ []

ask_IsTrimmed : IsTrimmed (codes "?")
unfolding space_width last_space_width ascii_space two_byte_space three_byte_space
ask_IsTrimmed = record { no_first = refl; no_last = refl }

nets_IsTrimmed : IsTrimmed (codes "n")
unfolding space_width last_space_width ascii_space two_byte_space three_byte_space
nets_IsTrimmed = record { no_first = refl; no_last = refl }

session_trimmed : All IsTrimmedRequest session
session_trimmed = (ask_IsTrimmed, (tt, (nets_IsTrimmed, (tt, (ask_IsTrimmed, (tt, (tt, tt)))))))

session_answers : answered_bytes (codes "?") session ≡ codes "one" ∷ codes "two" ∷ []
unfolding answered_bytes str_eq
session_answers = refl

session_answered : answered_bytes (codes "?") session ≢ []
unfolding answered_bytes str_eq
session_answered e = cc

run-replays_example :
    (m : RequestResponse) × (bytes : Bytes) × (find_response (run marking session) (codes "?")
      ≡ some m)
    × (get_elem?
          (answered_bytes (codes "?") session)
          (3 % length (answered_bytes (codes "?") session))
        ≡ some bytes)
    × (let state = after_sends marking paper 3 m fresh [] in
        let result = send_response marking paper m state.0 state.1 in
        (result.0 ≡ sent)
        × (paper-IsReliable.written result.2 ≡ paper-IsReliable.written state.1 ++ bytes))
run-replays_example =
    run-replays marking paper marking-IsQuoting paper-IsReliable session (codes "?") 3 []
      session_trimmed ask_IsTrimmed (λ e. cc) session_answered (omega arith)

run-answers_example :
    responses_of (codes "?") (run marking session) ≡ answers marking (codes "?") session
run-answers_example = run-answers marking (codes "?") session (λ e. cc)

run-UniqueRequests_example : UniqueRequests (run marking session)
run-UniqueRequests_example = run-UniqueRequests marking session

abbrev chunk : Bytes → ResponseChunk
chunk text = record { text = text; delay = pos 1; jitter_max = pos 2 }

abbrev option : Bytes → ResponseOption
option text = record { chunks = chunk text ∷ [] }

abbrev asked : RequestResponse
asked = record { request = codes "? "; responses = option (codes "a") ∷ option (codes "b") ∷ [] }

abbrev mappings : Mappings
mappings = asked ∷ []

get-add_response_example :
    get (add_response mappings (codes "? ") (option (codes "c") ∷ [])) (codes "? ") ≡ (
      if str_eq (codes "? ") (codes "? ")
      then some (record {
        request = codes "? ";
        responses = responses_of (codes "? ") mappings ++ option (codes "c") ∷ [];
      })
      else get mappings (codes "? "))
get-add_response_example =
    get-add_response (codes "? ") (codes "? ") mappings (option (codes "c") ∷ [])

abbrev start : Handler marking paper
start = record { buffer = codes " "; counters = fresh; terminal = [] }

abbrev reads : List (Read marking paper)
reads = bytes (codes "\n") ∷ timeout ∷ bytes (codes "?\n") ∷ []

start_blank : trim_space (codes " ") ≡ []
unfolding trim_space
start_blank = refl

handle_reads-buffer_example :
    trim_space (handle_reads marking paper mappings start reads).buffer ≡ []
handle_reads-buffer_example = handle_reads-buffer marking paper mappings start reads start_blank

-- Two requests with the mapping, and one without.
abbrev asked_twice : List Bytes
asked_twice = codes "?\n" ∷ codes "x" ∷ codes " ?" ∷ []

asked_not_blank : All (λ req. trim_space req ≢ []) asked_twice
unfolding trim_space
asked_not_blank = (λ e. cc, (λ e. cc, (λ e. cc, tt)))

handle_reads-replies_example :
    paper-IsReliable.written
      (handle_reads marking paper mappings
        (record { buffer = []; counters = λ key. 0; terminal = [] })
        (map bytes asked_twice)).terminal
    ≡ paper-IsReliable.written [] ++ replies marking paper paper-IsReliable mappings [] asked_twice
handle_reads-replies_example =
    handle_reads-replies marking paper paper-IsReliable mappings asked_twice [] asked_not_blank
      (omega arith)

-- The same mappings, played without a delay.
abbrev at_once : Mappings
at_once = untimed mappings

handle_reads-untimed_example :
    paper-IsReliable.written
      (handle_reads marking paper mappings
        (record { buffer = []; counters = λ key. 0; terminal = [] })
        (map bytes asked_twice)).terminal
    ≡ paper-IsReliable.written
        (handle_reads marking paper at_once
          (record { buffer = []; counters = λ key. 0; terminal = [] })
          (map bytes asked_twice)).terminal
handle_reads-untimed_example =
    handle_reads-untimed marking paper paper-IsReliable mappings at_once asked_twice [] refl
      asked_not_blank (omega arith)

session_not_empty : All (λ req. req ≢ []) (requests_of session)
unfolding requests_of
session_not_empty = (λ e. cc, (λ e. cc, (λ e. cc, tt)))

session_short : length (requests_of session) ≤ 2 ^ 63
unfolding requests_of
session_short = omega arith

session-replays_example :
    paper-IsReliable.written
      (handle_reads marking paper
        (run marking session)
        (record { buffer = []; counters = λ key. 0; terminal = [] })
        (map bytes (requests_of session))).terminal
    ≡ paper-IsReliable.written [] ++ sent_by_device session
session-replays_example =
    session-replays marking paper marking-IsQuoting paper-IsReliable session [] session_trimmed
      session_not_empty session_short

-- What the device sent in that session.
device_sent : sent_by_device session ≡ codes "onenetstwo"
unfolding sent_by_device
device_sent = refl
