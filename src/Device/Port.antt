-- ===== src/Device/Port.antt =====
-- `JumperlessPort` of jumperless/jumperless-port.go.
pub mod Closed
pub mod Reading
pub mod Tidy
use k8s_jumperless.Base.{
  ℕ, zero, suc, Bool, true, false, Option, none, some, List, [], ◌∷◌, ◌++◌, if◌then◌else◌, Bytes,
  codes, ℤ, pos, negsuc, Result, ok, err,
}
use k8s_jumperless.Strings.Space.{trim_space}
use k8s_jumperless.Strings.Split.{contains, replace_one}

-- `if baudRate == 0 { baudRate = 115200 }`
abbrev pub default_rate : ℤ → ℤ
default_rate (pos zero) = pos 115200
default_rate (pos (suc n)) = pos (suc n)
default_rate (negsuc n) = negsuc n

-- The package go.bug.st/serial and the clock. A `Bool` is true when there is no error; a read
-- gives the bytes read, or `none` for an error.
pub record Serial : Type 1 where
  pub World : Type 0
  pub Handle : Type 0
  pub open_serial : Bytes → ℤ → World → Option Handle × World
  pub close_serial : Handle → World → Bool × World
  pub reset_input_buffer : Handle → World → Bool × World
  pub reset_output_buffer : Handle → World → Bool × World
  pub write : Handle → Bytes → World → Bool × World
  pub drain : Handle → World → Bool × World
  pub set_read_timeout : Handle → ℤ → World → Bool × World
  pub read : Handle → World → Option Bytes × World
  pub sleep : ℤ → World → World

-- The errors, by what they report. `unfinished` is not one of them: it stands for a loop of reads
-- that goes on for longer than the fuel.
pub data PortError : Type 0 where
  uninitialized already_open not_open open_failed close_failed : PortError
  reset_input_failed reset_output_failed write_failed drain_failed timeout_failed : PortError
  read_failed not_jumperless unfinished : PortError

module _ (serial : Serial) where
  -- `port` is nil while the port is closed; of the mode, the baud rate.
  pub record JumperlessPort : Type 0 where
    pub port_name : Bytes
    pub baud_rate : ℤ
    pub port : Option serial.Handle
    pub version : Bytes

  -- What a method returns, and the world behind it.
  abbrev pub Run : Type 0 → Type 0
  Run A = Result PortError A × serial.World

  abbrev pub opened : JumperlessPort → Option serial.Handle × serial.World → Run JumperlessPort
  opened p (none, w) = (err open_failed, w)
  opened p (some h, w) = (ok (record p { port = some h }), w)

  -- `Open`. An error leaves the port as it was.
  unfoldable pub open_port : JumperlessPort → serial.World → Run JumperlessPort
  open_port p w = elim p.port [
    | some h ↦ (err already_open, w)
    | none ↦ opened p (serial.open_serial p.port_name p.baud_rate w)
  ]

  abbrev pub closed : JumperlessPort → Bool × serial.World → Run JumperlessPort
  closed p (true, w) = (ok (record p { port = none }), w)
  closed p (false, w) = (err close_failed, w)

  -- `Close`. An error leaves the port as it was.
  unfoldable pub close_port : JumperlessPort → serial.World → Run JumperlessPort
  close_port p w = elim p.port [
    | none ↦ (err not_open, w)
    | some h ↦ closed p (serial.close_serial h w)
  ]

  -- `if err := ...; err != nil { return ... }`
  abbrev pub checked :
      {A : Type 0} → PortError → (serial.World → Run A) → Bool × serial.World → Run A
  checked e next (true, w) = next w
  checked e next (false, w) = (err e, w)

  abbrev pub onto_result : Bytes → Run Bytes → Run Bytes
  onto_result s (ok t, w) = (ok (s ++ t), w)
  onto_result s (err e, w) = (err e, w)

  -- What follows a read; `rest` reads on.
  abbrev pub after_read : (serial.World → Run Bytes) → Option Bytes × serial.World → Run Bytes
  after_read rest (none, w) = (err read_failed, w)
  after_read rest (some [], w) = (ok [], w)
  after_read rest (some (c ∷ s), w) = onto_result (c ∷ s) (rest w)

  -- The loop of reads, which ends with a read that brings nothing.
  unfoldable pub read_all : ℕ → serial.Handle → serial.World → Run Bytes
  read_all zero h w = (err unfinished, w)
  read_all (suc fuel) h w = after_read (read_all fuel h) (serial.read h w)

  -- `execRawCommand` on an open port. The durations are in nanoseconds.
  unfoldable pub exec_on : ℕ → serial.Handle → Bytes → ℤ → serial.World → Run Bytes
  unfolding read_all
  exec_on fuel h command wait_for_read w =
      checked reset_input_failed
        (λ w1.
          checked reset_output_failed
            (λ w2.
              checked write_failed
                (λ w3.
                  checked drain_failed
                    (λ w4.
                      checked timeout_failed (λ w5. read_all fuel h (serial.sleep wait_for_read w5))
                        (serial.set_read_timeout h (pos 1000000000) w4))
                    (serial.drain h w3))
                (serial.write h command w2))
            (serial.reset_output_buffer h w1))
        (serial.reset_input_buffer h w)

  -- `execRawCommand`
  unfoldable pub exec_raw_command : ℕ → JumperlessPort → Bytes → ℤ → serial.World → Run Bytes
  unfolding exec_on
  exec_raw_command fuel p command wait_for_read w = elim p.port [
    | none ↦ (err uninitialized, w)
    | some h ↦ exec_on fuel h command wait_for_read w
  ]

  -- The version that an answer to `?` shows, if it comes from a board.
  unfoldable pub version_of : Bytes → Option Bytes
  unfolding contains replace_one trim_space
  version_of result =
      let expected_prefix = codes "Jumperless firmware version:" in
      if contains result expected_prefix
      then some (trim_space (replace_one result expected_prefix []))
      else none

  abbrev pub checked_version : Run Bytes → Run (Option Bytes)
  checked_version (err e, w) = (err e, w)
  checked_version (ok result, w) = (ok (version_of result), w)

  -- `isJumperlessPort`, with the version for `true`.
  unfoldable pub is_jumperless_port : ℕ → JumperlessPort → serial.World → Run (Option Bytes)
  unfolding exec_raw_command version_of
  is_jumperless_port fuel p w =
      checked_version (exec_raw_command fuel p (codes "?") (pos 10000000) w)

  -- The deferred `Close`, whose error is dropped.
  abbrev pub after_close : JumperlessPort → Run JumperlessPort → Run JumperlessPort
  after_close p (err e, w) = (ok p, w)
  after_close p (ok q, w) = (ok q, w)

  abbrev pub failed_with : PortError → Run JumperlessPort → Run JumperlessPort
  failed_with e (r, w) = (err e, w)

  abbrev pub found_version : JumperlessPort → Run (Option Bytes) → Run JumperlessPort
  found_version p (err e, w) = failed_with e (close_port p w)
  found_version p (ok none, w) = failed_with not_jumperless (close_port p w)
  found_version p (ok (some v), w) =
      let q = record p { version = v } in after_close q (close_port q w)

  abbrev pub check_port : ℕ → Run JumperlessPort → Run JumperlessPort
  check_port fuel (err e, w) = (err e, w)
  check_port fuel (ok p, w) = found_version p (is_jumperless_port fuel p w)

  -- `NewJumperlessPort`
  unfoldable pub new_jumperless_port : ℕ → Bytes → ℤ → serial.World → Run JumperlessPort
  unfolding open_port close_port is_jumperless_port
  new_jumperless_port fuel port_name baud_rate w = check_port fuel (
      open_port
        (record {
          port_name = port_name;
          baud_rate = default_rate baud_rate;
          port = none;
          version = [];
        })
        w)
