-- ===== src/Tests/System.antt =====
-- A proxy command that records a session, and an emulator that plays it.
use k8s_jumperless.Base.{
  ◌^◌, ◌≤◌, All, map, length, arith, inl, true, Option, none, some, List, [], ◌∷◌, ◌++◌, ◌≡◌, ◌≢◌,
  refl, sym, if◌then◌else◌, Bytes, codes, str_eq, str_eq_refl, ap, ◌∙◌, pos,
}
use k8s_jumperless.Emulator.Config.{emulator_config_of}
use k8s_jumperless.Emulator.Mappings.Laws.{responses_of}
use k8s_jumperless.Emulator.Mappings.{Mappings, RequestResponse, ResponseChunk, ResponseOption}
use k8s_jumperless.Proxy.Command.Saved.{proxy_command-answers}
use k8s_jumperless.Proxy.Command.{ProxyCommandError, proxy_command}
use k8s_jumperless.Proxy.Config.{proxy_config_of}
use k8s_jumperless.Proxy.Recorder.Exchanges.{answers}
use k8s_jumperless.Proxy.Recorder.{Event, request, response, run}
use k8s_jumperless.Proxy.Run.{Session}
use k8s_jumperless.Tests.Examples.{marking, marking-IsQuoting, paper, paper-IsReliable}
use k8s_jumperless.Proxy.Command.Replayed.{IsReadBack, proxy_command-replays}
use k8s_jumperless.Proxy.Replay.Session.{requests_of, sent_by_device}
use k8s_jumperless.Proxy.Replay.{IsTrimmedRequest}
use k8s_jumperless.Emulator.Respond.{bytes, handle_reads}
use k8s_jumperless.Strings.Space.Laws.{IsTrimmed}
use k8s_jumperless.Proxy.Run.Recorded.{IsHeard}
use k8s_jumperless.Proxy.Command.Saved.{IsStored}
use k8s_jumperless.Strings.Space.{
  ascii_space, last_space_width, space_width, three_byte_space, two_byte_space,
}
use k8s_jumperless.Tests.Logging.{Log, logging, logging_host, logging_tools, start_log, viper}
use k8s_jumperless.Viper.{ConfigFiles, Viper, read_in}
use k8s_jumperless.Emulator.Respond.Untimed.{
  untimed, untimed_chunk, untimed_mapping, untimed_option,
}
use k8s_jumperless.Proxy.Save.Found.{by_default, by_use}
use mathlib.Core.Option.{some-injective}
use mathlib.Core.Path.{ap₂, subst}

-- The second port that is listed is that of a board.
abbrev pub two_ports : List Bytes
two_ports = codes "hello" ∷ [] ∷ codes "Jumperless firmware version: 5.2.2.0" ∷ [] ∷ []

abbrev pub heard : List Event
heard = request (codes "?") 0 ∷ response (codes "one") 5 6 ∷ []

abbrev pub session : Session (logging_host true) Bytes
session = record {
  until_done = λ p h w. w;
  until_unblocked = λ p h w. w;
  until_ended = λ p h w. some (heard, record w { heard = heard });
}

abbrev store : Bytes → Mappings → Log → Log
store file ms w = record w { stored = λ path. if str_eq path file then ms else w.stored path }

abbrev files : ConfigFiles Log
files = record {
  Settings = Mappings;
  no_settings = [];
  read_in_config = λ file w. (read_in (w.stored file), w);
  set_mappings = λ key ms settings. ms;
  write_config_as = λ settings file w. (true, store file settings w);
}

abbrev stored : Bytes → Log → Mappings
stored file w = w.stored file

session-IsHeard : IsHeard logging (logging_host true) session (λ w. w.heard)
session-IsHeard = record {
  hears = λ p h w events w1 e.
      ap (λ x. x.1.heard) (sym (some-injective _ _ e)) ∙ ap (λ x. x.0) (some-injective _ _ e);
  keeps_close = λ h w. refl;
  keeps_close_tty = λ t w. refl;
  keeps_remove = λ path w. refl;
}

files-IsStored : IsStored files (λ w. w.heard) stored
files-IsStored = record {
  keeps_read = λ file w. refl;
  keeps_write = λ settings file w. refl;
  stores = λ settings ms file w e. rw (str_eq_refl file) refl;
}

abbrev my_file : Bytes
my_file = codes "my.yml"

-- The world behind a command that returns.
abbrev world_of : Option (Option ProxyCommandError × Log) → Log
world_of none = start_log []
world_of (some (e, w)) = w

abbrev saved : Log
saved = world_of (
    proxy_command logging (logging_host true) logging_tools marking session 3 files viper my_file
      (some []) (start_log two_ports))

saves :
    proxy_command logging
      (logging_host true)
      logging_tools
      marking
      session
      3
      files
      viper
      my_file
      (some [])
      (start_log two_ports)
    ≡ some (none, saved)
unfolding proxy_command str_eq proxy_config_of
saves = refl

heard_it : saved.heard ≡ heard
unfolding proxy_command str_eq proxy_config_of
heard_it = refl

heard_something : run marking heard ≢ []
unfolding run
heard_something e = cc

proxy_command-answers_example :
    responses_of (codes "?") (stored my_file saved)
    ≡ (if (proxy_config_of viper).overwrite
        then []
        else responses_of (codes "?") (emulator_config_of viper).mappings)
      ++ answers marking (codes "?") saved.heard
proxy_command-answers_example =
    proxy_command-answers logging (logging_host true) logging_tools marking session 3 files viper
      (λ w. w.heard) stored session-IsHeard files-IsStored my_file (codes "?") (some []) my_file
      (start_log two_ports) saved (by_use (λ e. cc) refl) saves
      (subst (λ events. run marking events ≢ []) (sym heard_it) heard_something) (λ e. cc)

-- The mappings are to be overwritten, and the port of the board is given.
abbrev overwriting : Viper
overwriting = record viper { is_set = λ key. true }

abbrev replaced : Log
replaced = world_of (
    proxy_command logging (logging_host true) logging_tools marking session 3 files overwriting []
      (some []) (start_log []))

replaces :
    proxy_command logging
      (logging_host true)
      logging_tools
      marking
      session
      3
      files
      overwriting
      []
      (some [])
      (start_log [])
    ≡ some (none, replaced)
unfolding proxy_command str_eq proxy_config_of
replaces = refl

heard_again : replaced.heard ≡ heard
unfolding proxy_command str_eq proxy_config_of
heard_again = refl

overwrites : (proxy_config_of overwriting).overwrite ≡ true
unfolding proxy_config_of
overwrites = refl

ask_IsTrimmed : IsTrimmed (codes "?")
unfolding space_width last_space_width ascii_space two_byte_space three_byte_space
ask_IsTrimmed = record { no_first = refl; no_last = refl }

-- What is asked of the traffic.
abbrev IsPlayable : List Event → Type 0
IsPlayable events =
    (run marking events ≢ [])
    × All IsTrimmedRequest events
    × All (λ req. req ≢ []) (requests_of events)
    × (length (requests_of events) ≤ 2 ^ 63)

heard-IsPlayable : IsPlayable heard
unfolding requests_of
heard-IsPlayable = (heard_something, (ask_IsTrimmed, (tt, tt)), (λ e. cc, tt), omega arith)

replaced-IsPlayable : IsPlayable replaced.heard
replaced-IsPlayable = subst IsPlayable (sym heard_again) heard-IsPlayable

-- The mappings as they are read back, without their jitters.
abbrev read_chunk : ResponseChunk → ResponseChunk
read_chunk chunk = record chunk { jitter_max = pos 0 }

abbrev read_option : ResponseOption → ResponseOption
read_option option = record { chunks = map read_chunk option.chunks }

abbrev read_mapping : RequestResponse → RequestResponse
read_mapping m = record { request = m.request; responses = map read_option m.responses }

abbrev load : Bytes → Log → Viper
load file w = record viper {
  is_set = λ key. true;
  unmarshal_mappings = λ key. some (map read_mapping (w.stored file));
}

map-map :
    {A B : Type 0} (f : A → A) (g : A → B)
    → ((x : A) → g (f x) ≡ g x)
    → (xs : List A) → map g (map f xs) ≡ map g xs
map-map f g same [] = refl
map-map f g same (x ∷ xs) = ap₂ (◌∷◌) (same x) (map-map f g same xs)

untimed-read : (ms : Mappings) → untimed (map read_mapping ms) ≡ untimed ms
untimed-read = map-map read_mapping untimed_mapping (λ m.
    ap (λ os. record { request = m.request; responses = os })
      (map-map read_option untimed_option
        (λ o.
          ap (λ cs. record { chunks = cs }) (map-map read_chunk untimed_chunk (λ c. refl) o.chunks))
        m.responses))

load-IsReadBack : IsReadBack load stored
load-IsReadBack = record {
  sets = λ file w ne. refl;
  reads = λ file w. (map read_mapping (w.stored file), refl, untimed-read (w.stored file));
}

abbrev default_file : Bytes
default_file = codes "jumperless-utils.yml"

proxy_command-replays_example :
    paper-IsReliable.written
      (handle_reads marking paper
        (emulator_config_of (load default_file replaced)).mappings
        (record { buffer = []; counters = λ key. 0; terminal = [] })
        (map bytes (requests_of replaced.heard))).terminal
    ≡ paper-IsReliable.written [] ++ sent_by_device replaced.heard
proxy_command-replays_example =
    proxy_command-replays logging (logging_host true) logging_tools marking session 3 files
      overwriting (λ w. w.heard) stored session-IsHeard files-IsStored load load-IsReadBack paper
      marking-IsQuoting paper-IsReliable [] (some []) default_file (start_log []) replaced []
      (by_default refl refl refl) replaces replaced-IsPlayable.0 (inl overwrites)
      replaced-IsPlayable.1 replaced-IsPlayable.2 replaced-IsPlayable.3
