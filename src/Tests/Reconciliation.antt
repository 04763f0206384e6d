-- ===== src/Tests/Reconciliation.antt =====
-- A board that prints a script, and a resource that is reconciled with it.
use k8s_jumperless.Api.Types.{Jumperless, JumperlessHostLocal, JumperlessStatus}
use k8s_jumperless.Base.{
  Bool, true, false, Option, none, some, List, [], ◌∷◌, ◌++◌, ◌≡◌, refl, arith, Bytes, codes, ℤ,
  pos, ok, map,
}
use k8s_jumperless.Controller.Complete.{channels_of, reconcile_local-channels}
use k8s_jumperless.Controller.Patched.{IsPatched, IsSettled, reconcile-IsPatched}
use k8s_jumperless.Controller.Ready.{IsMeta, reconcile_local-Ready}
use k8s_jumperless.Controller.Settling.{reconcile_twice-Ready}
use k8s_jumperless.Controller.Reconcile.{
  Cluster, found, reconcile, reconcile_instance, status_instance,
}
use k8s_jumperless.Controller.{ConditionStatus, Meta, is_stale, is_true, reconcile_local}
use k8s_jumperless.Device.Board.{Tools, new_jumperless}
use k8s_jumperless.Device.Port.Closed.{IsReady, new_jumperless_port-IsReady}
use k8s_jumperless.Device.Port.Reading.{concat, exec_raw_command-Answers, more, silent}
use k8s_jumperless.Device.Port.{
  JumperlessPort, Serial, exec_raw_command, new_jumperless_port, open_port,
}
use k8s_jumperless.Local.Commands.{channel_name, dac_channels, get_dac}
use k8s_jumperless.Tests.Examples.{in_order}

-- Reads take the next piece of the script; an empty one is a timeout.
abbrev next_piece : List Bytes → Option Bytes × List Bytes
next_piece [] = (some [], [])
next_piece (s ∷ w) = (some s, w)

abbrev script : Serial
script = record {
  World = List Bytes;
  Handle = Bool;
  open_serial = λ name rate w. (some true, w);
  close_serial = λ h w. (true, w);
  reset_input_buffer = λ h w. (true, w);
  reset_output_buffer = λ h w. (true, w);
  write = λ h s w. (true, w);
  drain = λ h w. (true, w);
  set_read_timeout = λ h t w. (true, w);
  read = λ h w. next_piece w;
  sleep = λ t w. w;
}

abbrev tools : Tools script
tools = record { port_names = λ w. (some (codes "ttyACM0" ∷ []), w); strip = λ s. s }

abbrev port : JumperlessPort script
port = record {
  port_name = codes "ttyACM0";
  baud_rate = pos 115200;
  port = none;
  version = codes "5.2.2.0";
}

abbrev open_board : JumperlessPort script
open_board = record port { port = some true }

exec_raw_command-Answers_example :
    exec_raw_command script 3 open_board
      (codes "~")
      (pos 5)
      (codes "ab" ∷ codes "c" ∷ [] ∷ codes "d" ∷ [])
    ≡ (ok (concat (codes "ab" ∷ codes "c" ∷ [])), codes "d" ∷ [])
exec_raw_command-Answers_example =
    exec_raw_command-Answers script 3 open_board true (codes "~") (pos 5)
      (codes "ab" ∷ codes "c" ∷ [] ∷ codes "d" ∷ []) (codes "ab" ∷ codes "c" ∷ []) (codes "d" ∷ [])
      refl
      (record {
        w1 = codes "ab" ∷ codes "c" ∷ [] ∷ codes "d" ∷ [];
        w2 = codes "ab" ∷ codes "c" ∷ [] ∷ codes "d" ∷ [];
        w3 = codes "ab" ∷ codes "c" ∷ [] ∷ codes "d" ∷ [];
        w4 = codes "ab" ∷ codes "c" ∷ [] ∷ codes "d" ∷ [];
        w5 = codes "ab" ∷ codes "c" ∷ [] ∷ codes "d" ∷ [];
        input_reset = refl;
        output_reset = refl;
        written = refl;
        drained = refl;
        limited = refl;
        delivered = more refl (more refl (silent refl));
      })
      (omega arith)

abbrev firmware : List Bytes
firmware = codes "Jumperless firmware version: 5.2.2.0" ∷ [] ∷ []

finds_port : (new_jumperless_port script 3 (codes "ttyACM0") (pos 0) firmware).0 ≡ ok port
unfolding new_jumperless_port
finds_port = refl

new_jumperless_port-IsReady_example :
    IsReady script (λ h w. refl) (codes "ttyACM0") (pos 115200) port
new_jumperless_port-IsReady_example =
    new_jumperless_port-IsReady script (λ h w. refl) 3 (codes "ttyACM0") (pos 0) firmware port
      finds_port

abbrev dac_answer : List Bytes
dac_answer = codes "Python> >dac_get(0)\r\n3.3\r\n" ∷ [] ∷ []

reads_dac : (get_dac script tools in_order 3 open_board (pos 0) dac_answer).0 ≡ ok (codes "3.3V")
unfolding get_dac
reads_dac = refl

abbrev pub ready_only : Meta
ready_only = record {
  Conditions = Option (ConditionStatus × ℤ);
  find_ready = λ cs. cs;
  set_ready = λ cs c. (true, some (c.status, c.observed_generation));
  error_text = λ e. codes "error";
}

ready_only-IsMeta : IsMeta ready_only
ready_only-IsMeta = record { find-set = λ cs c. refl }

abbrev host : JumperlessHostLocal
host = record { port = some (codes "ttyACM0"); baud_rate = none }

abbrev status : JumperlessStatus (Option (ConditionStatus × ℤ))
status = record {
  firmware_version = none;
  local_port = none;
  dacs = [];
  nets = [];
  config = [];
  conditions = some (is_true, pos 1);
}

-- All that the board prints in one reconciliation.
abbrev pub answers : List Bytes
answers =
    firmware
    ++ (dac_answer
        ++ (dac_answer
            ++ (dac_answer
                ++ (dac_answer
                    ++ (codes
                          "Python> >print_nets()\r\nIndex\tName\t\tVoltage\r\n1\t GND\t\t 0 V    GND,9\r\n"
                        ∷ []
                        ∷ codes "`[dacs] top_rail = 3.50;\r\n"
                        ∷ []
                        ∷ [])))))

not_stale : is_stale (ready_only.find_ready status.conditions) (pos 1) ≡ false
not_stale = refl

finds_board : new_jumperless script tools 3 (codes "ttyACM0") (pos 0) firmware ≡ (ok port, [])
unfolding new_jumperless
finds_board = refl

opens_board : open_port script port [] ≡ (ok open_board, [])
unfolding open_port
opens_board = refl

-- The board is silent after it has shown its version.
reconcile_local-Ready_example :
    ready_only.find_ready
      (reconcile_local ready_only script tools in_order 3 (pos 1) host status firmware).1.conditions
    ≡ some (is_true, pos 1)
reconcile_local-Ready_example =
    reconcile_local-Ready ready_only script tools in_order 3 ready_only-IsMeta (pos 1) host status
      firmware port [] open_board [] not_stale finds_board opens_board

-- That reconciliation fails all the same.
silent_board_fails :
    (reconcile_local ready_only script tools in_order 3 (pos 1) host status firmware).0 ≡ none → ⊥
unfolding reconcile_local
silent_board_fails e = cc

reads_all :
    (reconcile_local ready_only script tools in_order 3 (pos 1) host status answers).0 ≡ none
unfolding reconcile_local
reads_all = refl

reconcile_local-channels_example :
    channels_of
      (reconcile_local ready_only script tools in_order 3 (pos 1) host status answers).1.dacs
    ≡ map channel_name dac_channels
reconcile_local-channels_example =
    reconcile_local-channels ready_only script tools in_order 3 (pos 1) host status answers
      not_stale reads_all

abbrev pub instance' : Jumperless (Option (ConditionStatus × ℤ))
instance' = record {
  name = codes "board";
  namespace = codes "default";
  generation = pos 1;
  spec = record { host = record { local = some host; ssh = none }; dacs = [] };
  status = status;
}

abbrev cluster : Cluster ready_only script
cluster = record {
  Unstructured = Jumperless (Option (ConditionStatus × ℤ));
  fetch = λ name w. (found instance', w);
  to_unstructured = λ object. some object;
  patch = λ object w. (true, w);
}

-- A resource without a condition.
abbrev new_instance : Jumperless (Option (ConditionStatus × ℤ))
new_instance = record instance' { status = record status { conditions = none } }

reconcile_twice-Ready_example :
    let first_pass =
      reconcile_instance ready_only script tools in_order 3 cluster new_instance [] in
    let again = record new_instance { status = first_pass.1 } in
    ready_only.find_ready
      (reconcile_instance ready_only script tools in_order 3 cluster again firmware).1.conditions
    ≡ some (is_true, pos 1)
reconcile_twice-Ready_example =
    reconcile_twice-Ready ready_only script tools in_order 3 ready_only-IsMeta cluster new_instance
      host [] firmware [] [] port open_board refl finds_board opens_board

no_errors :
    (reconcile ready_only script tools in_order 3 cluster
      (codes "default", codes "board")
      answers).0
    ≡ []
unfolding reconcile
no_errors = refl

reconcile-IsPatched_example :
    (s : JumperlessStatus (Option (ConditionStatus × ℤ))) × IsSettled ready_only script tools
      in_order 3 ready_only-IsMeta cluster
      (pos 1)
      s
    × IsPatched ready_only script tools in_order 3 ready_only-IsMeta cluster
        (status_instance instance' s)
        (reconcile ready_only script tools in_order 3 cluster
          (codes "default", codes "board")
          answers).1
reconcile-IsPatched_example =
    reconcile-IsPatched ready_only script tools in_order 3 ready_only-IsMeta cluster
      (codes "default", codes "board") answers answers instance' refl no_errors
