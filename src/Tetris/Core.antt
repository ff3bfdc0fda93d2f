-- ===== src/Tetris/Core.antt =====
-- The game loop of QSD8250Pkg/Application/TetrisApp: Core.c and main.c. What is printed is left out.
pub mod Rounds
pub mod States
use msm8909pkg.Base.{
  ℕ, ◌+◌, ◌-◌, ◌*◌, ◌/◌, Bool, true, false, not, ◌&&◌, ◌||◌, Option, none, some, if◌then◌else◌,
  ◌==◌,
}
use msm8909pkg.Tetris.Board.{
  Board, move_piece_left, move_piece_right, rotate_piece, move_piece_down, drop_piece,
  construct_board,
}

-- `GAME_STATE`
pub data GameState : Type 0 where
  waiting_for_start running paused over exit : GameState

-- `Core`
pub record Core : Type 0 where
  pub game_state : GameState
  pub board : Board
  pub tick_counter : ℕ

abbrev pub game_refresh_period : ℕ
game_refresh_period = 35

-- The keys, with the codes of the UEFI specification.
abbrev pub scan_up : ℕ
scan_up = 0x01

abbrev pub scan_down : ℕ
scan_down = 0x02

abbrev pub scan_home : ℕ
scan_home = 0x05

abbrev pub scan_esc : ℕ
scan_esc = 0x17

abbrev pub char_backspace : ℕ
char_backspace = 0x08

abbrev pub char_tab : ℕ
char_tab = 0x09

abbrev pub char_carriage_return : ℕ
char_carriage_return = 0x0D

abbrev pub is_running : GameState → Bool
is_running running = true
is_running s = false

abbrev pub is_paused : GameState → Bool
is_paused paused = true
is_paused s = false

-- The level is 1 to 10.
pub reset_tick_counter : Core → Core
reset_tick_counter c = record c { tick_counter = game_refresh_period * (11 - c.board.level) / 10 }

pub start_game : Core → Core
start_game c = record c { game_state = running }

pub game_over : Core → Core
game_over c = record c { game_state = over }

pub toggle_pause : Core → Core
toggle_pause c = record c { game_state = if is_paused c.game_state then running else paused }

pub timer_callback : Core → Core
timer_callback c =
    if is_running c.game_state && not (c.tick_counter == 0)
    then record c { tick_counter = c.tick_counter - 1 }
    else c

-- A piece that is dropped, and the counter.
after_drop : Option Board → Core → Option Core
after_drop none c = none
after_drop (some t) c = some (reset_tick_counter (record c { board = t }))

-- A key that moves the piece down: the counter starts again if that puts it down.
after_key_down : Option (Bool × Board) → Core → Option Core
after_key_down none c = none
after_key_down (some (true, t)) c = some (record c { board = t })
after_key_down (some (false, t)) c = some (reset_tick_counter (record c { board = t }))

-- The inner `switch`, on the character.
pub handle_char : ℕ → Core → Option Core
unfolding after_key_down
handle_char key c =
    if key == char_carriage_return
    then if is_running c.game_state then after_key_down (move_piece_down c.board) c else some c
    else if key == char_tab
    then if is_running c.game_state
      then some (record c { board = rotate_piece c.board })
      else some c
    else if key == char_backspace
    then if is_running c.game_state || is_paused c.game_state then some (toggle_pause c) else some c
    else some c

-- The `switch` on the scan code.
pub handle_scan : ℕ → ℕ → Core → Option Core
unfolding after_drop
handle_scan scan key c =
    if scan == scan_home
    then if is_running c.game_state then after_drop (drop_piece c.board) c else some c
    else if scan == scan_up
    then if is_running c.game_state
      then some (record c { board = move_piece_left c.board })
      else some c
    else if scan == scan_down
    then if is_running c.game_state
      then some (record c { board = move_piece_right c.board })
      else some c
    else if scan == scan_esc
    then some (record c { game_state = exit })
    else handle_char key c

key_pressed : GameState → ℕ → ℕ → Core → Option Core
key_pressed waiting_for_start scan key c = some (start_game c)
key_pressed s scan key c = handle_scan scan key c

-- `handleInput` by what `ReadKeyStroke` gives: a scan code and a character, or `EFI_NOT_READY`.
pub handle_input : Option (ℕ × ℕ) → Core → Option Core
unfolding key_pressed
handle_input none c = some c
handle_input (some (scan, key)) c = key_pressed c.game_state scan key c

-- A tick moves the piece down.
after_tick : Option (Bool × Board) → Core → Option Core
after_tick none c = none
after_tick (some (moved, t)) c = some (reset_tick_counter (record c { board = t }))

-- `drawWindow`
pub draw_window : Core → Option Core
unfolding after_tick
draw_window c =
    let c' = if is_running c.game_state && c.board.blocked then game_over c else c in
    if c'.tick_counter == 0 then after_tick (move_piece_down c'.board) c' else some c'

-- `ConstructCore`
pub construct_core : ℕ → Core
construct_core second = record {
  game_state = waiting_for_start;
  board = construct_board second;
  tick_counter = game_refresh_period;
}

-- One event of the running game: the timer, or a round of the loop of `UefiMain` up to the drawing.
pub data Event : Type 0 where
  tick : Event
  input : Option (ℕ × ℕ) → Event
  draw : Event

pub handle : Event → Core → Option Core
handle tick c = some (timer_callback c)
handle (input k) c = handle_input k c
handle draw c = draw_window c
