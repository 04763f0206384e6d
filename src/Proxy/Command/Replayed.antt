-- ===== src/Proxy/Command/Replayed.antt =====
-- The emulator with the configuration that the proxy command has saved and that is read again.
use k8s_jumperless.Base.{
  ℕ, ◌≤◌, ◌^◌, true, Option, none, some, codes, sym, List, [], ◌++◌, ◌≡◌, ◌≢◌, ◌⊎◌, ap, ◌∙◌, All,
  map, length, Bytes,
}
use k8s_jumperless.Device.Board.{Tools}
use k8s_jumperless.Device.Port.{Serial}
use k8s_jumperless.Emulator.Config.{emulator_config_of}
use k8s_jumperless.Emulator.Mappings.{Mappings}
use k8s_jumperless.Emulator.Respond.Written.{IsReliable}
use k8s_jumperless.Emulator.Respond.Untimed.{handle_reads-untimed, untimed}
use k8s_jumperless.Emulator.Respond.{Terminal, bytes, handle_reads}
use k8s_jumperless.Host.{Host}
use k8s_jumperless.Proxy.Command.Saved.{IsStored, stored-proxy_command}
use k8s_jumperless.Proxy.Command.{proxy_command}
use k8s_jumperless.Proxy.Config.{proxy_config_of}
use k8s_jumperless.Proxy.Quoting.{IsQuoting, Quoting}
use k8s_jumperless.Proxy.Recorder.{Event, run}
use k8s_jumperless.Proxy.Replay.Session.{
  requests-not_blank, requests_of, sent_by_device, session-replays,
}
use k8s_jumperless.Proxy.Replay.{IsTrimmedRequest}
use k8s_jumperless.Proxy.Run.Recorded.{IsHeard}
use k8s_jumperless.Proxy.Run.{Session}
use k8s_jumperless.Proxy.Save.Found.{IsConfigFile}
use k8s_jumperless.Proxy.Save.Merged.{merged-recording}
use k8s_jumperless.Viper.{ConfigFiles, Viper}

-- Reading the configuration file for a later command. The mappings are read back as they are stored,
-- but for delays and jitters, of which nothing is known: the key under which a jitter is written is
-- not the one under which it is read.
pub record IsReadBack {W : Type 0} (load : Bytes → W → Viper) (stored : Bytes → W → Mappings)
    : Type 0 where
  pub sets :
      (file : Bytes) (w : W)
      → stored file w ≢ []
      → (load file w).is_set (codes "emulator.mappings") ≡ true
  pub reads :
      (file : Bytes) (w : W)
      → (ms : Mappings) × ((load file w).unmarshal_mappings (codes "emulator.mappings") ≡ some ms)
        × (untimed ms ≡ untimed (stored file w))

-- The mappings of the emulator, if some are stored.
mappings-read_back :
    {W : Type 0} (load : Bytes → W → Viper) (stored : Bytes → W → Mappings)
    → IsReadBack load stored
    → (file : Bytes) (w : W) → stored file w ≢ []
    → untimed (emulator_config_of (load file w)).mappings ≡ untimed (stored file w)
unfolding emulator_config_of
mappings-read_back load stored back file w ne =
    let (ms, is_read, same) = back.reads file w in rw (back.sets file w ne, is_read) same

module _ (serial : Serial) (host : Host serial.World) (tools : Tools serial) (q : Quoting)
    (session : Session host serial.Handle) (fuel : ℕ) (files : ConfigFiles serial.World) (v : Viper)
    (heard : serial.World → List Event) (stored : Bytes → serial.World → Mappings)
    (hearing : IsHeard serial host session heard) (laws : IsStored files heard stored)
    (load : Bytes → serial.World → Viper) (back : IsReadBack load stored) where
  -- The recording is what the file has.
  stored-recording :
      (used : Bytes) (flag : Option Bytes) (file : Bytes) (w w' : serial.World)
      → IsConfigFile used flag file
      → proxy_command serial host tools q session fuel files v used flag w ≡ some (none, w')
      → run q (heard w') ≢ []
      → ((proxy_config_of v).overwrite ≡ true) ⊎ ((emulator_config_of v).mappings ≡ [])
      → stored file w' ≡ run q (heard w')
  stored-recording used flag file w w' is_file e recorded nothing_kept =
      stored-proxy_command serial host tools q session fuel files v heard stored hearing laws used
        flag file w w' is_file e recorded
      ∙ merged-recording (proxy_config_of v) (emulator_config_of v) (run q (heard w')) nothing_kept

  -- After a proxy command that returns no error, that overwrites the mappings or finds none, and of
  -- which the recording is not empty, the emulator with the settings that are then read from the
  -- configuration file, whose reads bring the requests of the traffic in their order, writes exactly
  -- the bytes that the device sent behind the first request, in order. The configuration file is the
  -- one that was used; without one, that of the flag; and if the flag is empty,
  -- `jumperless-utils.yml`. Writing a file without an error stores the mappings that were set in
  -- that file, and reading it gives the mappings that it stores, but for delays and jitters. The
  -- traffic is what the recorder has received when the goroutines end, which no closing, removal or
  -- use of a file changes. The requests are not empty and have no white space at their ends, there
  -- are at most 2 ^ 63, `Unquote` undoes `Quote`, the emulator's counters are 0 at first, and its
  -- terminal takes every write.
  pub proxy_command-replays :
      (t : Terminal) (quoting : IsQuoting q) (reliable : IsReliable t) (used : Bytes)
      (flag : Option Bytes) (file : Bytes) (w w' : serial.World) (s : t.State)
      → IsConfigFile used flag file
      → proxy_command serial host tools q session fuel files v used flag w ≡ some (none, w')
      → run q (heard w') ≢ []
      → ((proxy_config_of v).overwrite ≡ true) ⊎ ((emulator_config_of v).mappings ≡ [])
      → All IsTrimmedRequest (heard w')
      → All (λ req. req ≢ []) (requests_of (heard w'))
      → length (requests_of (heard w')) ≤ 2 ^ 63
      → reliable.written
          (handle_reads q t
            (emulator_config_of (load file w')).mappings
            (record { buffer = []; counters = λ key. 0; terminal = s })
            (map bytes (requests_of (heard w')))).terminal
        ≡ reliable.written s ++ sent_by_device (heard w')
  proxy_command-replays t quoting reliable used flag file w w' s is_file e recorded nothing_kept
        trimmed ne short =
      let is_stored = stored-recording used flag file w w' is_file e recorded nothing_kept in
      handle_reads-untimed q t reliable (emulator_config_of (load file w')).mappings
        (run q (heard w')) (requests_of (heard w')) s
        (mappings-read_back load stored back file w' (λ nothing. recorded (sym is_stored ∙ nothing))
          ∙ ap untimed is_stored)
        (requests-not_blank (heard w') trimmed ne) short
      ∙ session-replays q t quoting reliable (heard w') s trimmed ne short
