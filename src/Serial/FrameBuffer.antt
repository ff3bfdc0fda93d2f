-- ===== src/Serial/FrameBuffer.antt =====
-- The console in the frame buffer:
-- QSD8250Pkg/Library/FrameBufferSerialPortLib/FrameBufferSerialPortLib.c. The frame buffer's bytes are
-- a function of their offsets; the interrupt state and the cache are left out.
pub mod Font
pub mod Cursor
pub mod Inside
use msm8909pkg.Base.{
  ℕ, zero, suc, ◌+◌, ◌-◌, ◌*◌, ◌/◌, ◌%◌, ◌^◌, Bool, true, false, not, ◌&&◌, Option, none, some,
  List, [], ◌∷◌, length, get_or, if◌then◌else◌, ◌==◌, ltb, leb,
}
use msm8909pkg.Serial.FrameBuffer.Font.{font_width, font_height, font5x12}

-- `gWidth`, `gHeight` and `gBpp / 8`, with the values of QSD8250Pkg/QSD8250Pkg.dec.
abbrev pub width : ℕ
width = 480

abbrev pub height : ℕ
height = 800

abbrev pub bytes_per_pixel : ℕ
bytes_per_pixel = 4

-- The bytes of the frame buffer.
abbrev pub frame_size : ℕ
frame_size = width * height * bytes_per_pixel

-- `FB_BGRA8888_BLACK`, `FB_BGRA8888_WHITE` and `FB_BGRA8888_YELLOW`
abbrev pub black : ℕ
black = 0xff000000

abbrev pub white : ℕ
white = 0xffffffff

abbrev pub yellow : ℕ
yellow = 0xffffff00

-- `FbConMsgType`
pub data FbConMsgType : Type 0 where
  common_msg unlock_title_msg title_msg subtitle_msg yellow_msg orange_msg red_msg green_msg
        select_msg_bg_color :
      FbConMsgType

-- `m_Position`, `m_MaxPosition`, `m_Color` and `m_Initialized`, and the bytes of the frame buffer.
pub record FbCon : Type 0 where
  pub x : ℕ
  pub y : ℕ
  pub max_x : ℕ
  pub max_y : ℕ
  pub foreground : ℕ
  pub background : ℕ
  pub initialized : Bool
  pub memory : ℕ → ℕ

-- A pointer into the frame buffer, and its bytes.
pub record Canvas : Type 0 where
  pub pixels : ℕ
  pub memory : ℕ → ℕ

-- A loop of `n` rounds.
unfoldable pub times : ℕ → (Canvas → Canvas) → Canvas → Canvas
times zero f s = s
times (suc n) f s = times n f (f s)

unfoldable pub skip : ℕ → Canvas → Canvas
skip n s = record s { pixels = s.pixels + n }

-- A byte is stored, and the pointer moves on.
unfoldable pub put_byte : ℕ → Canvas → Canvas
put_byte v s = record {
  pixels = s.pixels + 1;
  memory = λ o. if o == s.pixels then v else s.memory o;
}

-- The loop over the bytes of a pixel.
unfoldable pub put_pixel : ℕ → ℕ → Canvas → Canvas
put_pixel zero color s = s
put_pixel (suc k) color s = put_pixel k (color / 256) (put_byte (color % 256) s)

-- `ResetFb`: the memory after all the pixels are black.
unfoldable pub reset_fb : (ℕ → ℕ) → ℕ → ℕ
reset_fb memory =
    (times width (times height (put_pixel bytes_per_pixel black))
      (record { pixels = 0; memory = memory })).memory

-- `FbConReset`
unfoldable pub fb_con_reset : FbCon → FbCon
fb_con_reset c = record c {
  x = 0;
  y = 0;
  max_x = width / (font_width + 1);
  max_y = (height - 1) / font_height;
  foreground = white;
  background = black;
}

-- `SerialPortInitialize`
unfoldable pub serial_port_initialize : FbCon → FbCon
serial_port_initialize c =
    if c.initialized then c else record (fb_con_reset c) { initialized = true }

module _ (stride bpp scale_factor : ℕ) where
  -- A row of the background of a glyph, and half of its rows.
  unfoldable pub background_row : ℕ → Canvas → Canvas
  background_row color s =
      skip (stride * bpp) (times font_width (times scale_factor (put_pixel bpp color)) s)

  unfoldable pub background_half : ℕ → Canvas → Canvas
  background_half color = times (font_height / 2) (times scale_factor (background_row color))

  -- The bits of a row of a glyph.
  unfoldable pub glyph_bits : ℕ → ℕ → ℕ → Canvas → Canvas
  glyph_bits zero word color s = s
  glyph_bits (suc n) word color s = glyph_bits n (word / 2) color (
      if word % 2 == 1
      then times scale_factor (put_pixel bpp color) s
      else times scale_factor (skip bpp) s)

  unfoldable pub glyph_row : ℕ → ℕ → Canvas → Canvas
  glyph_row word color s = skip (stride * bpp) (glyph_bits font_width word color s)

  -- The rows of one word, which each row shifts by the width of the font.
  unfoldable pub glyph_rows : ℕ → ℕ → ℕ → Canvas → Canvas
  glyph_rows zero word color s = s
  glyph_rows (suc n) word color s =
      glyph_rows n (word / 2 ^ font_width) color (times scale_factor (glyph_row word color) s)

-- `FbConDrawglyph`
unfoldable pub fb_con_drawglyph : ℕ → ℕ → ℕ → ℕ → ℕ → ℕ → FbCon → FbCon
fb_con_drawglyph pixels stride bpp glyph0 glyph1 scale_factor c =
    let stride' = (stride + 2 ^ 32 - font_width * scale_factor % 2 ^ 32) % 2 ^ 32 in
    let half = background_half stride' bpp scale_factor c.background in
    let rows = glyph_rows stride' bpp scale_factor (font_height / 2) in
    let bg = half (half (record { pixels = pixels; memory = c.memory })) in
    let painted =
      rows glyph1 c.foreground
        (rows glyph0 c.foreground (record { pixels = pixels; memory = bg.memory })) in
    record c { memory = painted.memory }

-- Whether a space at the start of a line is shown.
abbrev is_title : FbConMsgType → Bool
is_title title_msg = true
is_title subtitle_msg = true
is_title _ = false

abbrev newline_char : ℕ
newline_char = 10

abbrev return_char : ℕ
return_char = 13

-- The label `newline`; `paint` is the jump back, once the screen is cleared.
unfoldable pub newline : ℕ → FbCon → (FbCon → Option FbCon) → Option FbCon
newline scale_factor c paint =
    let c' = record c { y = c.y + scale_factor; x = 0 } in
    let again = paint (record c' { memory = reset_fb c'.memory; y = 0 }) in
    if leb ((c'.max_y + 2 ^ 32 - scale_factor) % 2 ^ 32) c'.y then again else some c'

-- A character is drawn and the cursor moves.
unfoldable pub draw_char : ℕ → ℕ → FbCon → FbCon
draw_char c scale_factor s =
    let pixels =
      s.y * (bytes_per_pixel * font_height * width)
      + s.x * scale_factor * (bytes_per_pixel * (font_width + 1)) in
    let glyph = (c - 32) * 2 in
    let s' =
      fb_con_drawglyph pixels width bytes_per_pixel (get_or font5x12 glyph 0)
        (get_or font5x12 (glyph + 1) 0) scale_factor s in
    record s' { x = s'.x + 1 }

-- `FbConPutCharWithFactor` from the label `paint` on, with fuel for its jumps; `none` means that the
-- fuel ran out.
unfoldable pub paint : ℕ → ℕ → FbConMsgType → ℕ → FbCon → Option FbCon
paint zero c type scale_factor s = none
paint (suc fuel) c type scale_factor s =
    let again = newline scale_factor s (paint fuel c type scale_factor) in
    let drawn = draw_char c scale_factor s in
    let wrapped = newline scale_factor drawn (paint fuel c type scale_factor) in
    if ltb 127 c
    then some s
    else if ltb c 32
    then (if c == newline_char
        then again
        else if c == return_char
        then some (record s { x = 0 })
        else some s)
    else if s.x == 0 && c == b' ' && not (is_title type)
    then some s
    else if leb (drawn.max_x / scale_factor) drawn.x
    then wrapped
    else some drawn

-- `FbConPutCharWithFactor`: a second round is the last.
unfoldable pub fb_con_put_char_with_factor : ℕ → FbConMsgType → ℕ → FbCon → Option FbCon
fb_con_put_char_with_factor c type scale_factor s =
    let painted = paint 2 c type scale_factor s in if s.initialized then painted else some s

-- `SCALE_FACTOR`
abbrev pub scale : ℕ
scale = 1

-- What comes after a character.
abbrev after_char : Option FbCon → (FbCon → Option FbCon) → Option FbCon
after_char none more = none
after_char (some s) more = more s

-- The loop of `SerialPortWrite` over the bytes.
unfoldable pub write_bytes : List ℕ → FbCon → Option FbCon
write_bytes [] s = some s
write_bytes (b ∷ bs) s =
    after_char (fb_con_put_char_with_factor b common_msg scale s) (write_bytes bs)

-- The colour is put back, and the number of bytes returned.
unfoldable pub written : ℕ → (FbCon → FbCon) → Option FbCon → Option (ℕ × FbCon)
written n restore none = none
written n restore (some s) = some (n, restore s)

-- `SerialPortWrite`: the number of bytes, and the console.
unfoldable pub serial_port_write : List ℕ → FbCon → Option (ℕ × FbCon)
serial_port_write buffer s = written (length buffer) (λ s'. s') (write_bytes buffer s)

-- `SerialPortWriteCritical`
unfoldable pub serial_port_write_critical : List ℕ → FbCon → Option (ℕ × FbCon)
serial_port_write_critical buffer s =
    written (length buffer) (λ s'. record s' { foreground = s.foreground })
      (write_bytes buffer (record s { foreground = yellow }))
