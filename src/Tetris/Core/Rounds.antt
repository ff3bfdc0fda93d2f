-- ===== src/Tetris/Core/Rounds.antt =====
-- The events of the game loop of QSD8250Pkg/Application/TetrisApp/Core.c, one after the other.
use msm8909pkg.Base.{
  ℕ, ◌+◌, ◌-◌, ◌*◌, ◌≡◌, refl, Bool, true, false, not, ◌&&◌, ◌||◌, Option, none, some, List, [],
  ◌∷◌, if◌then◌else◌, ◌==◌,
}
use msm8909pkg.Tetris.Board.{
  Board, move_piece_left, move_piece_right, rotate_piece, move_piece_down, drop_piece,
}
use msm8909pkg.Tetris.Board.Fall.{IsReady, move_piece_down-Lowered}
use msm8909pkg.Tetris.Board.Drop.{drop_piece_lem}
use msm8909pkg.Tetris.Board.Ready.{
  move_piece_left-IsReady, move_piece_right-IsReady, rotate_piece-IsReady, construct_board-IsReady,
}
use msm8909pkg.Tetris.Core.{
  GameState, waiting_for_start, running, paused, over, exit, Core, is_running, is_paused,
  reset_tick_counter, start_game, game_over, toggle_pause, timer_callback, after_drop,
  after_key_down, after_tick, handle_char, handle_scan, key_pressed, handle_input, draw_window,
  construct_core, Event, tick, input, draw, handle,
}

-- Code that ends with a board that is ready.
Ends : Option Core → Type 0
Ends out = (c : Core) × (out ≡ some c) × IsReady c.board

stays-Ends : (c : Core) → IsReady c.board → Ends (some c)
unfolding Ends
stays-Ends c h = (c, refl, h)

if-Ends : (b : Bool) (x y : Option Core) → Ends x → Ends y → Ends (if b then x else y)
if-Ends true x y h k = h
if-Ends false x y h k = k

dropped-Ends : (t : Board) (c : Core) → IsReady t → Ends (after_drop (some t) c)
unfolding Ends after_drop reset_tick_counter
dropped-Ends t c h = (reset_tick_counter (record c { board = t }), refl, h)

drop-Ends : (c : Core) → IsReady c.board → Ends (after_drop (drop_piece c.board) c)
drop-Ends c h =
    let (height, t', falls, bound, returned, ready) = drop_piece_lem c.board h in
    rw returned (dropped-Ends (record t' { score = t'.score + 2 * height }) c ready)

lowered-Ends : (r : Bool × Board) (c : Core) → IsReady r.1 → Ends (after_key_down (some r) c)
unfolding Ends after_key_down reset_tick_counter
lowered-Ends (true, t) c h = (record c { board = t }, refl, h)
lowered-Ends (false, t) c h = (reset_tick_counter (record c { board = t }), refl, h)

key_down-Ends : (c : Core) → IsReady c.board → Ends (after_key_down (move_piece_down c.board) c)
key_down-Ends c h =
    let (r, returned, ready, lowered) = move_piece_down-Lowered c.board h in
    rw returned (lowered-Ends r c ready)

ticked-Ends : (r : Bool × Board) (c : Core) → IsReady r.1 → Ends (after_tick (some r) c)
unfolding Ends after_tick reset_tick_counter
ticked-Ends (moved, t) c h = (reset_tick_counter (record c { board = t }), refl, h)

tick-Ends : (c : Core) → IsReady c.board → Ends (after_tick (move_piece_down c.board) c)
tick-Ends c h =
    let (r, returned, ready, lowered) = move_piece_down-Lowered c.board h in
    rw returned (ticked-Ends r c ready)

handle_char-Ends : (key : ℕ) (c : Core) → IsReady c.board → Ends (handle_char key c)
unfolding handle_char toggle_pause
handle_char-Ends key c h =
    let same = stays-Ends c h in
    let r = is_running c.game_state in
    if-Ends (key == 0x0D) _ _ (if-Ends r _ _ (key_down-Ends c h) same) (
      if-Ends (key == 0x09) _ _
        (if-Ends r _ _
          (stays-Ends (record c { board = rotate_piece c.board }) (rotate_piece-IsReady c.board h))
          same)
        (if-Ends (key == 0x08) _ _
          (if-Ends (r || is_paused c.game_state) _ _ (stays-Ends (toggle_pause c) h) same) same))

handle_scan-Ends : (scan key : ℕ) (c : Core) → IsReady c.board → Ends (handle_scan scan key c)
unfolding handle_scan
handle_scan-Ends scan key c h =
    let same = stays-Ends c h in
    let r = is_running c.game_state in
    if-Ends (scan == 0x05) _ _ (if-Ends r _ _ (drop-Ends c h) same) (
      if-Ends (scan == 0x01) _ _
        (if-Ends r _ _
          (stays-Ends (record c { board = move_piece_left c.board })
            (move_piece_left-IsReady c.board h))
          same)
        (if-Ends (scan == 0x02) _ _
          (if-Ends r _ _
            (stays-Ends (record c { board = move_piece_right c.board })
              (move_piece_right-IsReady c.board h))
            same)
          (if-Ends (scan == 0x17) _ _ (stays-Ends (record c { game_state = exit }) h)
            (handle_char-Ends key c h))))

key_pressed-Ends :
    (s : GameState) (scan key : ℕ) (c : Core) → IsReady c.board → Ends (key_pressed s scan key c)
unfolding key_pressed start_game
key_pressed-Ends waiting_for_start scan key c h = stays-Ends (start_game c) h
key_pressed-Ends running scan key c h = handle_scan-Ends scan key c h
key_pressed-Ends paused scan key c h = handle_scan-Ends scan key c h
key_pressed-Ends over scan key c h = handle_scan-Ends scan key c h
key_pressed-Ends exit scan key c h = handle_scan-Ends scan key c h

handle_input-Ends : (k : Option (ℕ × ℕ)) (c : Core) → IsReady c.board → Ends (handle_input k c)
unfolding handle_input
handle_input-Ends none c h = stays-Ends c h
handle_input-Ends (some (scan, key)) c h = key_pressed-Ends c.game_state scan key c h

if-IsReady :
    (b : Bool) (c d : Core) → IsReady c.board → IsReady d.board → IsReady (if b then c else d).board
if-IsReady true c d h k = h
if-IsReady false c d h k = k

draw_window-Ends : (c : Core) → IsReady c.board → Ends (draw_window c)
unfolding draw_window game_over
draw_window-Ends c h =
    let ended = is_running c.game_state && c.board.blocked in
    let c' = if ended then game_over c else c in
    let h' = if-IsReady ended (game_over c) c h h in
    if-Ends (c'.tick_counter == 0) _ _ (tick-Ends c' h') (stays-Ends c' h')

timer_callback-IsReady : (c : Core) → IsReady c.board → IsReady (timer_callback c).board
unfolding timer_callback
timer_callback-IsReady c h =
    if-IsReady (is_running c.game_state && not (c.tick_counter == 0))
      (record c { tick_counter = c.tick_counter - 1 }) c h h

handle-Ends : (e : Event) (c : Core) → IsReady c.board → Ends (handle e c)
unfolding handle
handle-Ends tick c h = stays-Ends (timer_callback c) (timer_callback-IsReady c h)
handle-Ends (input k) c h = handle_input-Ends k c h
handle-Ends draw c h = draw_window-Ends c h

and_then : Option Core → (Core → Option Core) → Option Core
and_then none next = none
and_then (some c) next = next c

-- A sequence of events.
pub run : List Event → Core → Option Core
unfolding and_then
run [] c = some c
run (e ∷ es) c = and_then (handle e c) (run es)

run-Ends : (es : List Event) (c : Core) → IsReady c.board → Ends (run es c)
unfolding run and_then Ends
run-Ends [] c h = (c, refl, h)
run-Ends (e ∷ es) c h =
    let (c', returned, ready) = handle-Ends e c h in
    let (c'', later, ready') = run-Ends es c' ready in (c'', rw returned later, ready')

-- The game never hangs: from its start at any second of the clock, every sequence of timer ticks,
-- key presses and drawings is handled to its end, and the board it ends with is again one between
-- two moves, with nothing but the active piece in the invisible rows.
pub run_lem :
    (second : ℕ) (es : List Event)
    → (c : Core) × (run es (construct_core second) ≡ some c) × IsReady c.board
unfolding Ends construct_core
run_lem second es = run-Ends es (construct_core second) (construct_board-IsReady second)
