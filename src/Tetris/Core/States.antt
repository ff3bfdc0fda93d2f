-- ===== src/Tetris/Core/States.antt =====
-- The states of the game of QSD8250Pkg/Application/TetrisApp/Core.c in which it does not run.
use msm8909pkg.Base.{ℕ, ◌≡◌, ◌≢◌, refl, ◌∙◌, some, if◌then◌else◌, ◌==◌, arith}
use msm8909pkg.Tetris.Core.{
  running, paused, over, exit, Core, toggle_pause, timer_callback, handle_char, handle_scan,
  key_pressed, handle_input,
}

pressed-paused :
    (c : Core) (scan key : ℕ)
    → c.game_state ≡ paused
    → handle_input (some (scan, key)) c ≡ handle_scan scan key c
unfolding handle_input key_pressed
pressed-paused c scan key e = rw e refl

pressed-over :
    (c : Core) (scan key : ℕ)
    → c.game_state ≡ over
    → handle_input (some (scan, key)) c ≡ handle_scan scan key c
unfolding handle_input key_pressed
pressed-over c scan key e = rw e refl

-- In a pause the timer changes nothing. Escape ends the game; backspace without a scan code lets it
-- run again; a key whose scan code is not escape and whose character is not backspace changes
-- nothing.
pub paused_lem :
    (c : Core) (scan key : ℕ)
    → c.game_state ≡ paused
    → scan ≢ 0x17
    → key ≢ 0x08
    → (timer_callback c ≡ c)
      × (handle_input (some (0x17, key)) c ≡ some (record c { game_state = exit }))
      × (handle_input (some (0, 0x08)) c ≡ some (record c { game_state = running }))
      × (handle_input (some (scan, key)) c ≡ some c)
unfolding handle_scan handle_char toggle_pause timer_callback
paused_lem c scan key e no_esc no_back = (
  rw e refl,
  pressed-paused c 0x17 key e,
  pressed-paused c 0 0x08 e ∙ rw e refl,
  pressed-paused c scan key e ∙ rw e (ground arith),
)

-- Once the game is over, the timer changes nothing, escape ends it, and no other key changes
-- anything.
pub over_lem :
    (c : Core) (scan key : ℕ)
    → c.game_state ≡ over
    → (timer_callback c ≡ c)
      × (handle_input (some (scan, key)) c
          ≡ some (if scan == 0x17 then record c { game_state = exit } else c))
unfolding handle_scan handle_char toggle_pause timer_callback
over_lem c scan key e = (rw e refl, pressed-over c scan key e ∙ rw e (ground arith))
