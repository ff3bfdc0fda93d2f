-- ===== src/Tetris/Tests.antt =====
-- Runs of the game, and the theorems at inputs that meet their hypotheses.
use msm8909pkg.Base.{
  arith, ℕ, ◌+◌, ◌-◌, ◌*◌, ◌^◌, ◌≤◌, ◌<◌, ◌≡◌, ◌||◌, refl, none, some, List, [], ◌∷◌, ◌++◌,
  replicate, if◌then◌else◌, ◌==◌, ◌&&◌, leb,
}
use msm8909pkg.Base.Int.{pos, ◌+ℤ◌}
use msm8909pkg.Tetris.Piece.{Piece, choose, rotate_cw, rotate_ccw}
use msm8909pkg.Tetris.Piece.Shapes.{rotate_ccw-rotate_cw}
use msm8909pkg.Tetris.Board.{Board, construct_board, check_and_remove_lines, drop_piece}
use msm8909pkg.Tetris.Board.Rows.{row, is_full, visible, open_rows, full_count}
use msm8909pkg.Tetris.Board.Lines.{check_and_remove_lines_lem}
use msm8909pkg.Tetris.Board.Fall.{IsReady}
use msm8909pkg.Tetris.Board.Drop.{Falls, drop_piece_lem}
use msm8909pkg.Tetris.Board.Inside.{IsOnBoard, on_board, inside, sideways_and_turns-IsOnBoard}
use msm8909pkg.Tetris.Board.{move_piece_left, move_piece_right, rotate_piece}
use msm8909pkg.Tetris.Board.Ready.{construct_board-IsReady}
use msm8909pkg.Tetris.Core.{Core, paused, over, Event, tick, input, draw, construct_core}
use msm8909pkg.Tetris.Core.Rounds.{run, run_lem}

abbrev fresh : Board
fresh = construct_board 17

-- Rows 20 and 21 are full, row 19 is full but for its first field.
abbrev filled : Board
filled = record fresh { fields = λ y x. if leb 20 y || ((y == 19) && leb 1 x) then 5 else 0 }

check_and_remove_lines_lem_example :
    let rows = visible 20 filled.fields in
    let n = full_count rows in
    (t' : Board) × (check_and_remove_lines filled ≡ some t')
    × (visible 20 t'.fields ≡ open_rows rows ++ replicate n (row filled.fields 1))
    × ((y x : ℕ) → y < 2 → t'.fields y x ≡ filled.fields y x)
    × (t'.active_piece ≡ filled.active_piece)
    × (t'.next_piece ≡ filled.next_piece)
    × (t'.lines ≡ filled.lines + n)
    × (t'.score ≡ filled.score + (if n == 0 then 0 else 100 * 2 ^ (n - 1) + 50 * filled.level))
unfolding row is_full
check_and_remove_lines_lem_example = check_and_remove_lines_lem filled refl

drop_piece_lem_example :
    (height : ℕ) × (t' : Board) × Falls height fresh t'
    × (height ≤ 21)
    × (drop_piece fresh ≡ some (record t' { score = t'.score + 2 * height }))
    × IsReady (record t' { score = t'.score + 2 * height })
drop_piece_lem_example = drop_piece_lem fresh (construct_board-IsReady 17)

abbrev events : List Event
events = input (some (0, 0x0D)) ∷ tick ∷ draw ∷ input (some (5, 0)) ∷ draw ∷ input none ∷ []

run_lem_example : (c : Core) × (run events (construct_core 17) ≡ some c) × IsReady c.board
run_lem_example = run_lem 17 events

abbrev in_pause : Core
in_pause = record { game_state = paused; board = fresh; tick_counter = 9 }

abbrev lost : Core
lost = record { game_state = over; board = fresh; tick_counter = 9 }

rotate_ccw-rotate_cw_example : rotate_ccw (rotate_cw fresh.active_piece) ≡ fresh.active_piece
rotate_ccw-rotate_cw_example =
    rotate_ccw-rotate_cw fresh.active_piece (construct_board-IsReady 17).1

-- The piece T in its third rotation, at the right border.
abbrev t_piece : Piece
t_piece = record {
  bodies = (choose 5).0;
  body = 2;
  rotation = 2;
  color = 5;
  pos_x = pos 7;
  pos_y = 11;
}

abbrev at_border : Board
at_border = record fresh { active_piece = t_piece }

at_border-IsOnBoard : IsOnBoard at_border
unfolding on_board inside choose ◌+ℤ◌
at_border-IsOnBoard = refl

sideways_and_turns-IsOnBoard_example :
    IsOnBoard (move_piece_left at_border)
    × IsOnBoard (move_piece_right at_border)
    × IsOnBoard (rotate_piece at_border)
sideways_and_turns-IsOnBoard_example =
    sideways_and_turns-IsOnBoard at_border ((5, refl), omega arith, refl) at_border-IsOnBoard
