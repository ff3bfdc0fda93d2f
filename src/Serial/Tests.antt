-- ===== src/Serial/Tests.antt =====
-- Writes to the serial ports, and the theorems at inputs that meet their hypotheses.
use msm8909pkg.Base.{ℕ, ◌≡◌, refl, false, List, [], ◌∷◌, arith}
use mathlib.Core.List.{reverse}
use msm8909pkg.Serial.FrameBuffer
use msm8909pkg.Serial.FrameBuffer.{FbCon, frame_size, serial_port_initialize}
use msm8909pkg.Serial.FrameBuffer.Cursor.{
  Writes, serial_port_initialize-IsPlaced, serial_port_write-Writes,
}
use msm8909pkg.Serial.InMemory
use msm8909pkg.Serial.InMemory.{Log, mem_putchar, write_loop}
use msm8909pkg.Serial.InMemory.Recent.{before, take, serial_port_write-recent}

-- "Hi", the end of the line, "!".
abbrev text : List ℕ
text = b'H' ∷ b'i' ∷ 10 ∷ b'!' ∷ []

abbrev off : FbCon
off = record {
  x = 7;
  y = 9;
  max_x = 0;
  max_y = 0;
  foreground = 0;
  background = 0;
  initialized = false;
  memory = λ o. 0;
}

abbrev console : FbCon
console = serial_port_initialize off

serial_port_write-Writes_example :
    Writes frame_size (omega arith) 4 console (FrameBuffer.serial_port_write text console)
    × Writes frame_size
        (omega arith)
        4
        console
        (FrameBuffer.serial_port_write_critical text console)
serial_port_write-Writes_example =
    serial_port_write-Writes frame_size (omega arith) text console
      (serial_port_initialize-IsPlaced off refl)

-- A log of four bytes, at its last.
abbrev log : Log
log = record { offset = 3; memory = λ o. b'.' }

log-wraps : (write_loop 4 text log).offset ≡ 3
unfolding write_loop mem_putchar
log-wraps = refl

serial_port_write-recent_example :
    let (count, s') = InMemory.serial_port_write 4 text log in
    (count ≡ 4) × (before 4 3 s'.offset s'.memory ≡ take 3 (reverse text))
serial_port_write-recent_example =
    serial_port_write-recent 4 3 text log (omega arith) (omega arith) (omega arith)
