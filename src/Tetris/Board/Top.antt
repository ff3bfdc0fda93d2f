-- ===== src/Tetris/Board/Top.antt =====
-- The invisible rows of the board of QSD8250Pkg/Application/TetrisApp/Board.c, through its moves.
use msm8909pkg.Base.{ℕ, ◌<◌, ◌≡◌, ◌∙◌, Bool, true, false, if◌then◌else◌, arith}
use msm8909pkg.Base.Int.{ℤ, ◌+ℤ◌}
use msm8909pkg.Tetris.Piece.{Piece, blocks, rotate_cw, rotate_ccw}
use msm8909pkg.Tetris.Board.{
  Fields, Board, mark_blocks, draw_blocks, mark_fields_occupied_by_piece,
  draw_fields_occupied_by_piece, redraw_moved, is_move_possible, move_piece_sideways, rotate_piece,
}
use msm8909pkg.Tetris.Board.Marks.{mark_blocks-at, draw_blocks-top}

-- No field of the two invisible rows is taken.
abbrev pub Clear : Fields → Type 0
Clear f = (y x : ℕ) → y < 2 → f y x ≡ 0

-- Only the active piece takes fields of the invisible rows: they are empty once it is unmarked.
abbrev pub IsClear : Board → Type 0
IsClear t = Clear (mark_blocks t.active_piece 0 (blocks t.active_piece) t.fields)

pub Clear-IsClear : (t : Board) → Clear t.fields → IsClear t
Clear-IsClear t h y x top =
    mark_blocks-at t.active_piece 0 (blocks t.active_piece) t.fields y x ∙ ground (arith, h y x top)

pub mark-IsClear :
    (color : ℕ) (t : Board) → IsClear t → IsClear (mark_fields_occupied_by_piece color t)
unfolding mark_fields_occupied_by_piece
mark-IsClear color t h y x top =
    let p = t.active_piece in
    let bs = blocks p in
    mark_blocks-at p 0 bs (mark_blocks p color bs t.fields) y x
    ∙ ground (
      arith,
      mark_blocks-at p color bs t.fields y x,
      mark_blocks-at p 0 bs t.fields y x,
      h y x top,
    )

pub redraw_moved-Clear : (p : Piece) (t : Board) → Clear t.fields → Clear (redraw_moved p t).fields
unfolding redraw_moved draw_fields_occupied_by_piece
redraw_moved-Clear p t h y x top =
    draw_blocks-top p p.color (blocks p)
      (draw_blocks t.active_piece 0 (blocks t.active_piece) t.fields) y x top
    ∙ draw_blocks-top t.active_piece 0 (blocks t.active_piece) t.fields y x top
    ∙ h y x top

if-IsClear : (b : Bool) (t u : Board) → IsClear t → IsClear u → IsClear (if b then t else u)
if-IsClear true t u h k = h
if-IsClear false t u h k = k

-- The board without its active piece has clear rows on top, whatever piece is then put there.
pub unmark-Clear : (t : Board) → IsClear t → Clear (mark_fields_occupied_by_piece 0 t).fields
unfolding mark_fields_occupied_by_piece
unmark-Clear t h = h

pub move_piece_sideways-IsClear :
    (dx : ℤ) (t : Board) → IsClear t → IsClear (move_piece_sideways dx t)
unfolding move_piece_sideways mark_fields_occupied_by_piece
move_piece_sideways-IsClear dx t h =
    let unmarked = mark_fields_occupied_by_piece 0 t in
    let moved : Piece = record t.active_piece { pos_x = t.active_piece.pos_x +ℤ dx } in
    mark-IsClear t.active_piece.color
      (if is_move_possible unmarked dx 0 then redraw_moved moved unmarked else unmarked)
      (if-IsClear (is_move_possible unmarked dx 0) (redraw_moved moved unmarked) unmarked
        (Clear-IsClear (redraw_moved moved unmarked) (redraw_moved-Clear moved unmarked h))
        (Clear-IsClear unmarked h))

pub rotate_piece-IsClear : (t : Board) → IsClear t → IsClear (rotate_piece t)
unfolding rotate_piece mark_fields_occupied_by_piece
rotate_piece-IsClear t h =
    let back = rotate_ccw (rotate_cw t.active_piece) in
    let unmarked : Board = record (mark_fields_occupied_by_piece 0 t) { active_piece = back } in
    if-IsClear _ (mark_fields_occupied_by_piece back.color unmarked)
      (redraw_moved (rotate_cw back) unmarked)
      (mark-IsClear back.color unmarked (Clear-IsClear unmarked h))
      (Clear-IsClear (redraw_moved (rotate_cw back) unmarked)
        (redraw_moved-Clear (rotate_cw back) unmarked h))
