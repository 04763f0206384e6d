-- ===== src/Device/Port/Reading.antt =====
-- What `execRawCommand` returns from a board that falls silent.
use k8s_jumperless.Base.{
  ℕ, zero, suc, ◌<◌, true, some, List, [], ◌∷◌, ◌++◌, ◌≡◌, arith, Bytes, ℤ, pos, ok, length,
}
use k8s_jumperless.Device.Port.{Serial, JumperlessPort, read_all, exec_on, exec_raw_command}

-- The pieces, one behind the other.
unfoldable pub concat : List Bytes → Bytes
concat [] = []
concat (piece ∷ pieces) = piece ++ concat pieces

module _ (serial : Serial) where
  -- From `w` on, reads bring the pieces, none of them empty, and then nothing.
  pub data Delivers (h : serial.Handle) : serial.World → List Bytes → serial.World → Type 0 where
    silent : {w w' : serial.World} → serial.read h w ≡ (some [], w') → Delivers h w [] w'
    more :
        {w w1 w' : serial.World} {c : ℕ} {s : Bytes} {pieces : List Bytes}
        → serial.read h w ≡ (some (c ∷ s), w1)
        → Delivers h w1 pieces w'
        → Delivers h w ((c ∷ s) ∷ pieces) w'

  read_all-Delivers :
      (h : serial.Handle) (fuel : ℕ) {w w' : serial.World} {pieces : List Bytes}
      → Delivers h w pieces w'
      → length pieces < fuel
      → read_all serial fuel h w ≡ (ok (concat pieces), w')
  unfolding read_all concat
  read_all-Delivers h zero d below = absurd (omega arith)
  read_all-Delivers h (suc fuel) (silent e) below = rw e
  read_all-Delivers h (suc fuel) (more e d) below = rw (e, read_all-Delivers h fuel d (omega arith))

  -- The buffers are reset, the command is written, and the answer comes in pieces.
  pub record Answers (h : serial.Handle) (command : Bytes) (wait_for_read : ℤ) (w : serial.World)
      (pieces : List Bytes) (w' : serial.World) : Type 0 where
    pub w1 : serial.World
    pub w2 : serial.World
    pub w3 : serial.World
    pub w4 : serial.World
    pub w5 : serial.World
    pub input_reset : serial.reset_input_buffer h w ≡ (true, w1)
    pub output_reset : serial.reset_output_buffer h w1 ≡ (true, w2)
    pub written : serial.write h command w2 ≡ (true, w3)
    pub drained : serial.drain h w3 ≡ (true, w4)
    pub limited : serial.set_read_timeout h (pos 1000000000) w4 ≡ (true, w5)
    pub delivered : Delivers h (serial.sleep wait_for_read w5) pieces w'

  -- A command on an open port returns all that the board sends until it is silent, with more fuel
  -- than there are pieces. The resets, the write, the drain and the timeout succeed.
  pub exec_raw_command-Answers :
      (fuel : ℕ) (p : JumperlessPort serial) (h : serial.Handle) (command : Bytes)
      (wait_for_read : ℤ) (w : serial.World) (pieces : List Bytes) (w' : serial.World)
      → p.port ≡ some h
      → Answers h command wait_for_read w pieces w'
      → length pieces < fuel
      → exec_raw_command serial fuel p command wait_for_read w ≡ (ok (concat pieces), w')
  unfolding exec_raw_command exec_on
  exec_raw_command-Answers fuel p h command wait_for_read w pieces w' opened a below = rw (
    opened,
    a.input_reset,
    a.output_reset,
    a.written,
    a.drained,
    a.limited,
    read_all-Delivers h fuel a.delivered below,
  )
