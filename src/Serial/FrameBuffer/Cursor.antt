-- ===== src/Serial/FrameBuffer/Cursor.antt =====
-- The cursor of the console stays on the screen, and a write ends.
use msm8909pkg.Base.{
  ℕ, ◌+◌, ◌-◌, ◌/◌, ◌%◌, ◌^◌, ◌≤◌, ◌<◌, ◌≡◌, refl, ◌∙◌, true, false, not, ◌&&◌, Option, none, some,
  List, [], ◌∷◌, length, ◌==◌, ltb, leb, arith, if_both, if_split,
}
use msm8909pkg.Serial.FrameBuffer.{
  FbCon, common_msg, yellow, frame_size, scale, reset_fb, fb_con_reset, serial_port_initialize,
  fb_con_drawglyph, newline, newline_char, return_char, is_title, draw_char, paint,
  fb_con_put_char_with_factor, write_bytes, after_char, written, serial_port_write,
  serial_port_write_critical,
}
use msm8909pkg.Serial.FrameBuffer.Inside.{reset_fb-keeps, draw_char-keeps}

-- The console is initialised, and its cursor is on one of the 65 lines of 80 characters.
pub record IsPlaced (s : FbCon) : Type 0 where
  pub ready : s.initialized ≡ true
  pub columns : s.max_x ≡ 80
  pub rows : s.max_y ≡ 66
  pub x_in : s.x < 80
  pub y_in : s.y < 65

pub serial_port_initialize-IsPlaced :
    (c : FbCon) → c.initialized ≡ false → IsPlaced (serial_port_initialize c)
unfolding serial_port_initialize fb_con_reset
serial_port_initialize-IsPlaced c off =
    rw off
      (record { ready = refl; columns = refl; rows = refl; x_in = omega arith; y_in = omega arith })

-- A byte at or past the end of the frame buffer.
module _ (o : ℕ) (past : frame_size ≤ o) where
  -- What a character may do: the console stays placed, and keeps its colours.
  abbrev Prints : FbCon → Option FbCon → Type 0
  Prints s none = ⊥
  Prints s (some s') =
      IsPlaced s'
      × (s'.foreground ≡ s.foreground)
      × (s'.background ≡ s.background)
      × (s'.memory o ≡ s.memory o)

  Prints-trans :
      (s c : FbCon) (r : Option FbCon)
      → (s.foreground ≡ c.foreground) × (s.background ≡ c.background) × (s.memory o ≡ c.memory o)
      → Prints s r
      → Prints c r
  Prints-trans s c none same v = absurd v
  Prints-trans s c (some s') (fg, bg, m) (placed, fg', bg', m') =
      (placed, fg' ∙ fg, bg' ∙ bg, m' ∙ m)

  newline-Prints :
      (s c : FbCon) (k : FbCon → Option FbCon)
      → s.initialized ≡ true
      → s.max_x ≡ 80
      → s.max_y ≡ 66
      → s.y < 65
      → (s.y + 1 ≡ 65 → Prints c (k (record s { x = 0; y = 0; memory = reset_fb s.memory })))
      → (s.foreground ≡ c.foreground) × (s.background ≡ c.background) × (s.memory o ≡ c.memory o)
      → Prints c (newline 1 s k)
  unfolding newline
  newline-Prints s c k ready columns rows y_in again same =
      if_split (Prints c) (leb ((s.max_y + 2 ^ 32 - 1) % 2 ^ 32) (s.y + 1))
        (λ e. again (ground (arith, rows)))
        λ e. (
          record {
            ready = ready;
            columns = columns;
            rows = rows;
            x_in = omega arith;
            y_in = ground (arith, rows);
          },
          same.0,
          same.1,
          same.2,
        )

  -- At the start of the screen one round is enough.
  origin-Prints :
      (c : ℕ) (s : FbCon)
      → s.initialized ≡ true
      → s.max_x ≡ 80
      → s.max_y ≡ 66
      → s.x ≡ 0
      → s.y ≡ 0
      → Prints s (paint 1 c common_msg 1 s)
  unfolding paint newline draw_char fb_con_drawglyph
  origin-Prints c s ready columns rows x y =
      let placed : IsPlaced s = record {
        ready = ready;
        columns = columns;
        rows = rows;
        x_in = omega arith;
        y_in = omega arith;
      } in
      if_both (Prints s) (ltb 127 c) (placed, refl, refl, refl)
        (if_both (Prints s) (ltb c 32)
          (if_both (Prints s) (c == newline_char)
            (newline-Prints s s (paint 0 c common_msg 1) ready columns rows (omega arith)
              (λ h. absurd (omega (arith, y))) (refl, refl, refl))
            (if_both (Prints s) (c == return_char)
              (
                record {
                  ready = ready;
                  columns = columns;
                  rows = rows;
                  x_in = omega arith;
                  y_in = omega arith;
                },
                refl,
                refl,
                refl,
              )
              (placed, refl, refl, refl)))
          (if_both (Prints s) (s.x == 0 && c == b' ' && not (is_title common_msg))
            (placed, refl, refl, refl)
            (if_split (Prints s) (leb (s.max_x / 1) (s.x + 1))
              (λ e. absurd (ground (arith, columns, x)))
              λ e. (
                record {
                  ready = ready;
                  columns = columns;
                  rows = rows;
                  x_in = omega arith;
                  y_in = omega arith;
                },
                refl,
                refl,
                draw_char-keeps o past c s (omega arith) (omega arith),
              ))))

  paint-Prints : (c : ℕ) (s : FbCon) → IsPlaced s → Prints s (paint 2 c common_msg 1 s)
  unfolding paint draw_char fb_con_drawglyph
  paint-Prints c s v =
      let home : FbCon → FbCon = λ t. record t { x = 0; y = 0; memory = reset_fb t.memory } in
      if_both (Prints s) (ltb 127 c) (v, refl, refl, refl)
        (if_both (Prints s) (ltb c 32)
          (if_both (Prints s) (c == newline_char)
            (newline-Prints s s (paint 1 c common_msg 1) v.ready v.columns v.rows v.y_in
              (λ h.
                Prints-trans (home s) s (paint 1 c common_msg 1 (home s))
                  (refl, refl, reset_fb-keeps o past s.memory)
                  (origin-Prints c (home s) v.ready v.columns v.rows refl refl))
              (refl, refl, refl))
            (if_both (Prints s) (c == return_char)
              (
                record {
                  ready = v.ready;
                  columns = v.columns;
                  rows = v.rows;
                  x_in = omega arith;
                  y_in = v.y_in;
                },
                refl,
                refl,
                refl,
              )
              (v, refl, refl, refl)))
          (if_both (Prints s) (s.x == 0 && c == b' ' && not (is_title common_msg))
            (v, refl, refl, refl)
            (if_split (Prints s) (leb (s.max_x / 1) (s.x + 1))
              (λ e.
                let t = draw_char c 1 s in
                let kept = draw_char-keeps o past c s v.x_in v.y_in in
                newline-Prints t s (paint 1 c common_msg 1) v.ready v.columns v.rows v.y_in
                  (λ h.
                    Prints-trans (home t) s (paint 1 c common_msg 1 (home t))
                      (refl, refl, reset_fb-keeps o past t.memory ∙ kept)
                      (origin-Prints c (home t) v.ready v.columns v.rows refl refl))
                  (refl, refl, kept))
              λ e. (
                record {
                  ready = v.ready;
                  columns = v.columns;
                  rows = v.rows;
                  x_in = ground (arith, v.columns, v.x_in);
                  y_in = v.y_in;
                },
                refl,
                refl,
                draw_char-keeps o past c s v.x_in v.y_in,
              ))))

  put_char-Prints :
      (c : ℕ) (s : FbCon) → IsPlaced s → Prints s (fb_con_put_char_with_factor c common_msg scale s)
  unfolding fb_con_put_char_with_factor
  put_char-Prints c s v =
      if_both (Prints s) s.initialized (paint-Prints c s v) (v, refl, refl, refl)

  after_char-Prints :
      (s : FbCon) (r : Option FbCon) (more : FbCon → Option FbCon)
      → Prints s r
      → ((s' : FbCon) → IsPlaced s' → Prints s' (more s'))
      → Prints s (after_char r more)
  after_char-Prints s none more p q = p
  after_char-Prints s (some s') more (v, fg, bg, m) q =
      Prints-trans s' s (more s') (fg, bg, m) (q s' v)

  write_bytes-Prints : (bs : List ℕ) (s : FbCon) → IsPlaced s → Prints s (write_bytes bs s)
  unfolding write_bytes
  write_bytes-Prints [] s v = (v, refl, refl, refl)
  write_bytes-Prints (b ∷ bs) s v =
      after_char-Prints s (fb_con_put_char_with_factor b common_msg scale s) (write_bytes bs)
        (put_char-Prints b s v) (write_bytes-Prints bs)

  -- The result of a write: its number of bytes, with the console in place and its colours as before.
  abbrev pub Writes : ℕ → FbCon → Option (ℕ × FbCon) → Type 0
  Writes n s none = ⊥
  Writes n s (some (k, s')) =
      (k ≡ n)
      × IsPlaced s'
      × (s'.foreground ≡ s.foreground)
      × (s'.background ≡ s.background)
      × (s'.memory o ≡ s.memory o)

  written-Writes :
      (n : ℕ) (s : FbCon) (r : Option FbCon) → Prints s r → Writes n s (written n (λ s'. s') r)
  unfolding written
  written-Writes n s none v = v
  written-Writes n s (some s') (v, fg, bg, m) = (refl, v, fg, bg, m)

  restored-Writes :
      (n : ℕ) (s : FbCon) (r : Option FbCon)
      → Prints (record s { foreground = yellow }) r
      → Writes n s (written n (λ s'. record s' { foreground = s.foreground }) r)
  unfolding written
  restored-Writes n s none v = v
  restored-Writes n s (some s') (v, fg, bg, m) = (
    refl,
    record { ready = v.ready; columns = v.columns; rows = v.rows; x_in = v.x_in; y_in = v.y_in },
    refl,
    bg,
    m,
  )

  -- On an initialised console a write of any bytes ends and reports all of them, also the critical one:
  -- no character is painted more than twice. The cursor stays on the 65 lines of 80 characters, and the
  -- colours are afterwards as they were. No byte past the end of the frame buffer is written.
  pub serial_port_write-Writes :
      (buffer : List ℕ) (s : FbCon)
      → IsPlaced s
      → Writes (length buffer) s (serial_port_write buffer s)
        × Writes (length buffer) s (serial_port_write_critical buffer s)
  unfolding serial_port_write serial_port_write_critical
  serial_port_write-Writes buffer s v =
      let v' : IsPlaced (record s { foreground = yellow }) = record {
        ready = v.ready;
        columns = v.columns;
        rows = v.rows;
        x_in = v.x_in;
        y_in = v.y_in;
      } in
      (
        written-Writes (length buffer) s (write_bytes buffer s) (write_bytes-Prints buffer s v),
        restored-Writes (length buffer) s (write_bytes buffer (record s { foreground = yellow }))
            (write_bytes-Prints buffer (record s { foreground = yellow }) v'),
      )
