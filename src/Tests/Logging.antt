-- ===== src/Tests/Logging.antt =====
-- A serial library, an operating system and configuration files that log what is called.
use k8s_jumperless.Base.Calls.{Call, acquired, released}
use k8s_jumperless.Base.{
  Bool, true, false, Option, none, some, List, [], ◌∷◌, ◌++◌, ◌≡◌, refl, ap, ◌∙◌, Bytes, codes, pos,
  str_eq, ◌||◌,
}
use k8s_jumperless.Device.Board.{Tools}
use k8s_jumperless.Device.Port.Tidy.{IsLogged}
use k8s_jumperless.Device.Port.{Serial}
use k8s_jumperless.Emulator.Mappings.{Mappings, ResponseOption}
use k8s_jumperless.Host.Logged
use k8s_jumperless.Host.{Host, removed}
use k8s_jumperless.Proxy.Recorder.{Event}
use k8s_jumperless.Viper.{Viper}
use mathlib.Core.List.{append_assoc}
use mathlib.Core.Option.{some-injective}

-- What is still to be read, the calls so far, what the recorder has received, and the mappings in
-- each file.
pub record Log : Type 0 where
  pub pieces : List Bytes
  pub calls : List (Call Bytes)
  pub heard : List Event
  pub stored : Bytes → Mappings

abbrev pub start_log : List Bytes → Log
start_log pieces = record { pieces = pieces; calls = []; heard = []; stored = λ file. [] }

abbrev pub call : Call Bytes → Log → Log
call c w = record w { calls = w.calls ++ c ∷ [] }

abbrev next_piece : Log → List Bytes → Option Bytes × Log
next_piece w [] = (some [], w)
next_piece w (s ∷ rest) = (some s, record w { pieces = rest })

-- Each port can be opened, and closing reports an error.
abbrev pub logging : Serial
logging = record {
  World = Log;
  Handle = Bytes;
  open_serial = λ name rate w. (some name, call (acquired name) w);
  close_serial = λ h w. (false, call (released h) w);
  reset_input_buffer = λ h w. (true, w);
  reset_output_buffer = λ h w. (true, w);
  write = λ h s w. (true, w);
  drain = λ h w. (true, w);
  set_read_timeout = λ h t w. (true, w);
  read = λ h w. next_piece w w.pieces;
  sleep = λ t w. w;
}

abbrev pub logging_tools : Tools logging
logging_tools = record {
  port_names = λ w. (some (codes "ttyS0" ∷ codes "ttyACM0" ∷ []), w);
  strip = λ s. s;
}

abbrev pub calls_of : Log → List (Call Bytes)
calls_of w = w.calls

next_piece-calls : (w : Log) (pieces : List Bytes) → (next_piece w pieces).1.calls ≡ w.calls
next_piece-calls w [] = refl
next_piece-calls w (s ∷ rest) = refl

pub logging-IsLogged : IsLogged logging calls_of
logging-IsLogged = record {
  port = λ h. h;
  log_open = λ name rate w h e. ap (λ x. w.calls ++ acquired x ∷ []) (some-injective _ _ e);
  log_no_open = λ name rate w e. cc;
  log_close = λ h w. refl;
  log_reset_input = λ h w. refl;
  log_reset_output = λ h w. refl;
  log_write = λ h s w. refl;
  log_drain = λ h w. refl;
  log_timeout = λ h t w. refl;
  log_read = λ h w. next_piece-calls w w.pieces;
  log_sleep = λ t w. refl;
}

-- The terminals are ptmx and pts0, and `blocks` is whether ptmx cannot be made non-blocking.
abbrev pub logging_host : Bool → Host Log
logging_host nonblock = record {
  Tty = Bytes;
  open_pty = λ w. (
    some (codes "ptmx", codes "pts0"),
    call (acquired (codes "pts0")) (call (acquired (codes "ptmx")) w),
  );
  set_nonblock = λ t w. (nonblock, w);
  tty_name = λ t. t;
  close_tty = λ t w. (true, call (released t) w);
  remove = λ path w. (removed, call (released path) w);
  symlink = λ target path w. (true, call (acquired path) w);
}

pub logging_host-IsLogged : (nonblock : Bool) → Logged.IsLogged (logging_host nonblock) calls_of
logging_host-IsLogged nonblock = record {
  tty = λ t. t;
  link = λ path. path;
  log_open = λ w p v e.
      append_assoc w.calls _ _
      ∙ ap (λ ts. w.calls ++ acquired ts.0 ∷ acquired ts.1 ∷ []) (some-injective _ _ e);
  log_no_open = λ w e. cc;
  log_nonblock = λ t w. refl;
  log_close = λ t w. refl;
  log_remove = λ path w. refl;
  log_link = λ target path w e. refl;
  log_no_link = λ target path w e. cc;
}

-- A recorded answer to `?` is there, and the virtual port is linked.
abbrev old_answer : ResponseOption
old_answer = record {
  chunks = record { text = codes "\"zero"; delay = pos 1; jitter_max = pos 0 } ∷ [];
}

abbrev is_key : List Bytes → Bytes → Bool
is_key [] key = false
is_key (k ∷ ks) key = str_eq k key || is_key ks key

abbrev pub viper : Viper
viper = record {
  is_set =
      is_key (
        codes "emulator.mappings"
        ∷ codes "proxy.virtual-port"
        ∷ codes "emulator.virtual-port"
        ∷ []);
  get_int = λ key. pos 0;
  get_string = λ key. codes "/dev/board";
  get_bool = λ key. true;
  unmarshal_mappings =
      λ key. some (record { request = codes "?"; responses = old_answer ∷ [] } ∷ []);
  unmarshal_requests = λ key. none;
}
