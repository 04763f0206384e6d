-- ===== src/Device/Board.antt =====
-- `Jumperless` of jumperless/jumperless.go, which holds its port and nothing else. The guards against
-- nil pointers are left out: `NewJumperless` returns none of these with a nil error.
pub mod Tidy
use k8s_jumperless.Base.{
  ℕ, ltb, Option, none, some, List, [], ◌∷◌, ◌++◌, if◌then◌else◌, Bytes, codes, ℤ, Result, ok, err,
  length,
}
use k8s_jumperless.Device.Port.{
  Serial, JumperlessPort, PortError, Run, exec_raw_command, new_jumperless_port,
}
use k8s_jumperless.Strings.Affix.{has_prefix}
use k8s_jumperless.Strings.Space.{trim_space}
use k8s_jumperless.Strings.Split.{split, join}

-- The enumerator of go.bug.st/serial, `none` for an error, and `ansi.Strip`.
pub record Tools (serial : Serial) : Type 0 where
  pub port_names : serial.World → Option (List Bytes) × serial.World
  pub strip : Bytes → Bytes

-- The errors of the functions that look for a board; `aggregate` is a `NewAggregate`.
pub data FindError : Type 0 where
  port_error : PortError → FindError
  aggregate : List PortError → FindError
  list_failed no_serial_port no_jumperless : FindError

pub data ExecError : Type 0 where
  command_failed : PortError → ExecError
  too_few_lines no_output : ExecError

module _ (serial : Serial) where
  abbrev pub Jumperless : Type 0
  Jumperless = JumperlessPort serial

  abbrev pub no_board : List PortError → Result FindError Jumperless
  no_board [] = err no_jumperless
  no_board (e ∷ errs) = err (aggregate (e ∷ errs))

  abbrev pub try_next :
      (List PortError → serial.World → Result FindError Jumperless × serial.World)
      → List PortError
      → Run serial Jumperless
      → Result FindError Jumperless × serial.World
  try_next next errs (ok p, w) = (ok p, w)
  try_next next errs (err e, w) = next (errs ++ e ∷ []) w

  -- The loop of `findJumperlessPort` with the errors so far; it is left at the first board.
  unfoldable pub find_port :
      ℕ
      → ℤ
      → List Bytes
      → List PortError
      → serial.World
      → Result FindError Jumperless × serial.World
  unfolding new_jumperless_port
  find_port fuel baud_rate [] errs w = (no_board errs, w)
  find_port fuel baud_rate (name ∷ names) errs w =
      try_next (find_port fuel baud_rate names) errs
        (new_jumperless_port serial fuel name baud_rate w)

  abbrev pub find_enumerated :
      ℕ → ℤ → Option (List Bytes) × serial.World → Result FindError Jumperless × serial.World
  find_enumerated fuel baud_rate (none, w) = (err list_failed, w)
  find_enumerated fuel baud_rate (some [], w) = (err no_serial_port, w)
  find_enumerated fuel baud_rate (some (name ∷ names), w) =
      find_port fuel baud_rate (name ∷ names) [] w

  abbrev pub of_port : Run serial Jumperless → Result FindError Jumperless × serial.World
  of_port (ok p, w) = (ok p, w)
  of_port (err e, w) = (err (port_error e), w)

  module _ (tools : Tools serial) where
    -- `NewJumperless`, with `enumerateSerialPorts` and `findJumperlessPort`.
    unfoldable pub new_jumperless :
        ℕ → Bytes → ℤ → serial.World → Result FindError Jumperless × serial.World
    unfolding new_jumperless_port find_port
    new_jumperless fuel [] baud_rate w = find_enumerated fuel baud_rate (tools.port_names w)
    new_jumperless fuel (c ∷ port_name) baud_rate w =
        of_port (new_jumperless_port serial fuel (c ∷ port_name) baud_rate w)

    -- The trimmed lines that are neither empty nor a prompt.
    unfoldable pub output_lines : List Bytes → List Bytes
    unfolding trim_space has_prefix
    output_lines [] = []
    output_lines (line ∷ lines) =
        let later = output_lines lines in
        let trimmed = trim_space line in
        elim trimmed [
          | [] ↦ later
          | c ∷ s ↦ if has_prefix (c ∷ s) (codes "Python>") then later else (c ∷ s) ∷ later
        ]

    -- The `switch` on the lines that are left; a single line is joined with none.
    abbrev pub joined : List Bytes → Result ExecError Bytes
    joined [] = err no_output
    joined (line ∷ []) = ok line
    joined (line ∷ l ∷ lines) = ok (join (line ∷ l ∷ lines) (codes "\n"))

    -- What `ExecPythonCommand` makes of the output.
    unfoldable pub python_output : Bytes → Result ExecError Bytes
    unfolding split output_lines join
    python_output result =
        let result_lines = split (tools.strip result) (codes "\r\n") in
        if ltb (length result_lines) 3
        then err too_few_lines
        else joined (output_lines result_lines)

    abbrev pub checked_output : Run serial Bytes → Result ExecError Bytes × serial.World
    checked_output (err e, w) = (err (command_failed e), w)
    checked_output (ok result, w) = (python_output result, w)

    -- `ExecPythonCommand`
    unfoldable pub exec_python_command :
        ℕ → Jumperless → Bytes → ℤ → serial.World → Result ExecError Bytes × serial.World
    unfolding python_output exec_raw_command
    exec_python_command fuel j command wait_for_read w =
        checked_output (exec_raw_command serial fuel j (b'>' ∷ command) wait_for_read w)
