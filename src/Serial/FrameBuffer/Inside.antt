-- ===== src/Serial/FrameBuffer/Inside.antt =====
-- The console writes inside the frame buffer.
use msm8909pkg.Base.{
  ℕ, zero, suc, ◌+◌, ◌*◌, ◌/◌, ◌%◌, ◌^◌, ◌≤◌, ◌<◌, ◌≡◌, refl, ◌∙◌, if◌then◌else◌, ◌==◌, arith,
  if_both, ==_ne,
}
use native.Mathlib.Nat.{suc-mul}
use msm8909pkg.Serial.FrameBuffer.{
  Canvas, FbCon, width, height, bytes_per_pixel, frame_size, times, skip, put_byte, put_pixel,
  background_row, background_half, glyph_bits, glyph_row, glyph_rows, fb_con_drawglyph, draw_char,
  reset_fb, black,
}

-- A byte at or past the end of the frame buffer.
module _ (o : ℕ) (past : frame_size ≤ o) where
  -- The pointer has moved by `n`, and the byte is as it was.
  abbrev Moved : ℕ → Canvas → Canvas → Type 0
  Moved n s t = (t.pixels ≡ s.pixels + n) × (t.memory o ≡ s.memory o)

  Moved-trans : (m n : ℕ) (s t u : Canvas) → Moved m s t → Moved n t u → Moved (m + n) s u
  Moved-trans m n s t u (p, e) (p', e') = (omega (arith, p, p'), e' ∙ e)

  times-Moved :
      (k n : ℕ) (f : Canvas → Canvas)
      → ((s : Canvas) → s.pixels + n ≤ frame_size → Moved n s (f s))
      → (s : Canvas) → s.pixels + k * n ≤ frame_size
      → Moved (k * n) s (times k f s)
  unfolding times
  times-Moved zero n f step s h = (omega arith, refl)
  times-Moved (suc k) n f step s h =
      let (p, e) = step s (omega (arith, suc-mul k n)) in
      let (p', e') = times-Moved k n f step (f s) (omega (arith, suc-mul k n)) in
      (omega (arith, suc-mul k n), e' ∙ e)

  put_byte-Moved : (v : ℕ) (s : Canvas) → s.pixels + 1 ≤ frame_size → Moved 1 s (put_byte v s)
  unfolding put_byte
  put_byte-Moved v s h = (refl, rw (==_ne o s.pixels λ e. absurd (omega arith)) refl)

  put_pixel-Moved :
      (k color : ℕ) (s : Canvas) → s.pixels + k ≤ frame_size → Moved k s (put_pixel k color s)
  unfolding put_pixel
  put_pixel-Moved zero color s h = (omega arith, refl)
  put_pixel-Moved (suc k) color s h =
      let (p, e) = put_byte-Moved (color % 256) s (omega arith) in
      let (p', e') =
        put_pixel-Moved k (color / 256) (put_byte (color % 256) s) (omega (arith, p)) in
      (omega (arith, p, p'), e' ∙ e)

  pub reset_fb-keeps : (memory : ℕ → ℕ) → reset_fb memory o ≡ memory o
  unfolding reset_fb
  reset_fb-keeps memory =
      (times-Moved width 3200 (times height (put_pixel bytes_per_pixel black))
        (times-Moved height 4 (put_pixel bytes_per_pixel black) (put_pixel-Moved 4 black))
        (record { pixels = 0; memory = memory }) (omega arith)).1

  background_row-Moved :
      (color : ℕ) (s : Canvas)
      → s.pixels + 1920 ≤ frame_size
      → Moved 1920 s (background_row 475 4 1 color s)
  unfolding background_row skip
  background_row-Moved color s h =
      let (p, e) =
        times-Moved 5 4 (times 1 (put_pixel 4 color))
          (times-Moved 1 4 (put_pixel 4 color) (put_pixel-Moved 4 color)) s (omega arith) in
      (omega (arith, p), e)

  background_half-Moved :
      (color : ℕ) (s : Canvas)
      → s.pixels + 11520 ≤ frame_size
      → Moved 11520 s (background_half 475 4 1 color s)
  unfolding background_half
  background_half-Moved color s h =
      times-Moved 6 1920 (times 1 (background_row 475 4 1 color))
        (times-Moved 1 1920 (background_row 475 4 1 color) (background_row-Moved color)) s h

  glyph_bits-Moved :
      (n word color : ℕ) (s : Canvas)
      → s.pixels + n * 4 ≤ frame_size
      → Moved (n * 4) s (glyph_bits 475 4 1 n word color s)
  unfolding glyph_bits skip
  glyph_bits-Moved zero word color s h = (omega arith, refl)
  glyph_bits-Moved (suc n) word color s h =
      let t = if word % 2 == 1 then times 1 (put_pixel 4 color) s else times 1 (skip 4) s in
      let (p, e) : Moved 4 s t =
        if_both (Moved 4 s) (word % 2 == 1)
          (times-Moved 1 4 (put_pixel 4 color) (put_pixel-Moved 4 color) s (omega arith))
          (times-Moved 1 4 (skip 4) (λ r k. (refl, refl)) s (omega arith)) in
      let (p', e') = glyph_bits-Moved n (word / 2) color t (omega (arith, p)) in
      (omega (arith, p, p'), e' ∙ e)

  glyph_row-Moved :
      (word color : ℕ) (s : Canvas)
      → s.pixels + 1920 ≤ frame_size
      → Moved 1920 s (glyph_row 475 4 1 word color s)
  unfolding glyph_row skip
  glyph_row-Moved word color s h =
      let (p, e) = glyph_bits-Moved 5 word color s (omega arith) in (omega (arith, p), e)

  glyph_rows-Moved :
      (n word color : ℕ) (s : Canvas)
      → s.pixels + n * 1920 ≤ frame_size
      → Moved (n * 1920) s (glyph_rows 475 4 1 n word color s)
  unfolding glyph_rows
  glyph_rows-Moved zero word color s h = (omega arith, refl)
  glyph_rows-Moved (suc n) word color s h =
      let t = times 1 (glyph_row 475 4 1 word color) s in
      let (p, e) =
        times-Moved 1 1920 (glyph_row 475 4 1 word color) (glyph_row-Moved word color) s
          (omega arith) in
      let (p', e') = glyph_rows-Moved n (word / 2 ^ 5) color t (omega (arith, p)) in
      (omega (arith, p, p'), e' ∙ e)

  drawglyph-keeps :
      (pixels glyph0 glyph1 : ℕ) (c : FbCon)
      → pixels + 23040 ≤ frame_size
      → (fb_con_drawglyph pixels width bytes_per_pixel glyph0 glyph1 1 c).memory o ≡ c.memory o
  unfolding fb_con_drawglyph
  drawglyph-keeps pixels glyph0 glyph1 c h =
      let s : Canvas = record { pixels = pixels; memory = c.memory } in
      let half = background_half 475 4 1 c.background in
      let (p, e) = background_half-Moved c.background s (omega arith) in
      let (_, e') = background_half-Moved c.background (half s) (omega (arith, p)) in
      let t : Canvas = record { pixels = pixels; memory = (half (half s)).memory } in
      let (q, f) = glyph_rows-Moved 6 glyph0 c.foreground t (omega arith) in
      let (_, f') =
        glyph_rows-Moved 6 glyph1 c.foreground (glyph_rows 475 4 1 6 glyph0 c.foreground t)
          (omega (arith, q)) in
      f' ∙ f ∙ e' ∙ e

  pub draw_char-keeps :
      (c : ℕ) (s : FbCon) → s.x < 80 → s.y < 65 → (draw_char c 1 s).memory o ≡ s.memory o
  unfolding draw_char
  draw_char-keeps c s x_in y_in = drawglyph-keeps _ _ _ s (omega arith)
