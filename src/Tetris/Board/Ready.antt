-- ===== src/Tetris/Board/Ready.antt =====
-- The moves of QSD8250Pkg/Application/TetrisApp/Board.c that do not put the piece down.
use msm8909pkg.Base.{ℕ, refl, Bool, true, false, not, if◌then◌else◌}
use msm8909pkg.Base.Int.{ℤ, pos, negsuc, ◌+ℤ◌}
use msm8909pkg.Tetris.Piece.{Piece, Rng, rotate_cw, rotate_ccw, construct_piece}
use msm8909pkg.Tetris.Piece.Shapes.{
  IsPiece, rotate_cw-IsPiece, rotate_ccw-rotate_cw, construct_piece-IsPiece,
}
use msm8909pkg.Tetris.Board.{
  Board, move_piece_sideways, move_piece_left, move_piece_right, rotate_piece, construct_board,
  redraw_moved, is_move_possible, mark_fields_occupied_by_piece, draw_fields_occupied_by_piece,
}
use msm8909pkg.Tetris.Board.Top.{move_piece_sideways-IsClear, rotate_piece-IsClear}
use msm8909pkg.Tetris.Board.Fall.{IsReady, same-IsPiece, load_next_piece-IsReady}

-- The pieces of a board.
abbrev HavePieces : Board → Type 0
HavePieces t = IsPiece t.active_piece × IsPiece t.next_piece

if-HavePieces :
    (b : Bool) (t u : Board) → HavePieces t → HavePieces u → HavePieces (if b then t else u)
if-HavePieces true t u h k = h
if-HavePieces false t u h k = k

mark-HavePieces :
    (color : ℕ) (t : Board) → HavePieces t → HavePieces (mark_fields_occupied_by_piece color t)
unfolding mark_fields_occupied_by_piece
mark-HavePieces color t h = h

redraw_moved-HavePieces :
    (p : Piece) (t : Board) → IsPiece p → HavePieces t → HavePieces (redraw_moved p t)
unfolding redraw_moved draw_fields_occupied_by_piece
redraw_moved-HavePieces p t piece (active, next) = (piece, next)

pub move_piece_sideways-IsReady :
    (dx : ℤ) (t : Board) → IsReady t → IsReady (move_piece_sideways dx t)
unfolding move_piece_sideways
move_piece_sideways-IsReady dx t (clear, active, next) =
    let unmarked = mark_fields_occupied_by_piece 0 t in
    let moved : Piece = record t.active_piece { pos_x = t.active_piece.pos_x +ℤ dx } in
    let free = is_move_possible unmarked dx 0 in
    let (active', next') =
      mark-HavePieces t.active_piece.color (if free then redraw_moved moved unmarked else unmarked)
        (if-HavePieces free (redraw_moved moved unmarked) unmarked
          (redraw_moved-HavePieces moved unmarked active (mark-HavePieces 0 t (active, next)))
          (mark-HavePieces 0 t (active, next))) in
    (move_piece_sideways-IsClear dx t clear, active', next')

pub move_piece_left-IsReady : (t : Board) → IsReady t → IsReady (move_piece_left t)
unfolding move_piece_left
move_piece_left-IsReady t h = move_piece_sideways-IsReady (negsuc 0) t h

pub move_piece_right-IsReady : (t : Board) → IsReady t → IsReady (move_piece_right t)
unfolding move_piece_right
move_piece_right-IsReady t h = move_piece_sideways-IsReady (pos 1) t h

pub rotate_piece-IsReady : (t : Board) → IsReady t → IsReady (rotate_piece t)
unfolding rotate_piece mark_fields_occupied_by_piece
rotate_piece-IsReady t (clear, active, next) =
    let back = rotate_ccw (rotate_cw t.active_piece) in
    let piece =
      same-IsPiece back t.active_piece (rotate_ccw-rotate_cw t.active_piece active) active in
    let unmarked : Board = record (mark_fields_occupied_by_piece 0 t) { active_piece = back } in
    let free =
      is_move_possible (record unmarked { active_piece = rotate_cw t.active_piece }) (pos 0) 0 in
    let (active', next') =
      if-HavePieces (not free) (mark_fields_occupied_by_piece back.color unmarked)
        (redraw_moved (rotate_cw back) unmarked) (mark-HavePieces back.color unmarked (piece, next))
        (redraw_moved-HavePieces (rotate_cw back) unmarked (rotate_cw-IsPiece back piece)
          (piece, next)) in
    (rotate_piece-IsClear t clear, active', next')

-- `ConstructBoard` gives a board that is ready, at any second of the clock.
pub construct_board-IsReady : (second : ℕ) → IsReady (construct_board second)
unfolding construct_board
construct_board-IsReady second =
    let clock : Rng = record { previous_value = 0; initialized = false; second = second } in
    load_next_piece-IsReady
      (record {
        next_piece = (construct_piece clock).0;
        active_piece = (construct_piece (construct_piece clock).1).0;
        fields = λ y x. 0;
        blocked = false;
        level = 1;
        lines = 0;
        score = 0;
        rng = (construct_piece (construct_piece clock).1).1;
      })
      (λ y x h. refl) (construct_piece-IsPiece clock)
