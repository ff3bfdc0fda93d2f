-- ===== src/Tetris/Board/Fall.antt =====
-- `movePieceDown`, `placePiece` and `dropPiece` of QSD8250Pkg/Application/TetrisApp/Board.c.
use msm8909pkg.Base.{
  ℕ, ◌+◌, ◌<◌, ◌≡◌, refl, ◌∙◌, Bool, true, false, inl, inr, some, List, [], ◌∷◌, length, Bool-cases,
  arith,
}
use msm8909pkg.Base.Int.{pos}
use msm8909pkg.Tetris.Piece.{Point, Piece, blocks}
use msm8909pkg.Tetris.Piece.Shapes.{IsPiece, length-blocks, randomize-IsPiece}
use msm8909pkg.Tetris.Board.{
  Fields, Board, mark_fields_occupied_by_piece, redraw_moved, draw_fields_occupied_by_piece,
  is_move_possible, all_free, is_game_over, load_next_piece, place_piece, move_piece_down,
}
use msm8909pkg.Tetris.Board.Rows.{row, is_full}
use msm8909pkg.Tetris.Board.Lines.{check_and_remove_lines_lem}
use msm8909pkg.Tetris.Board.Marks.{mark_blocks-at, covers-top, all_free-line}
use msm8909pkg.Tetris.Board.Top.{Clear, IsClear, Clear-IsClear, mark-IsClear, redraw_moved-Clear}

-- The board between two moves: the invisible rows hold nothing but the active piece, and the pieces
-- are tetriminoes.
abbrev pub IsReady : Board → Type 0
IsReady t = IsClear t × IsPiece t.active_piece × IsPiece t.next_piece

empty_field-is_full : (f : Fields) (y : ℕ) → f y 0 ≡ 0 → is_full (row f y) ≡ false
unfolding row is_full
empty_field-is_full f y e = rw e refl

pub same-IsPiece : (p q : Piece) → p ≡ q → IsPiece q → IsPiece p
same-IsPiece p q e h = rw e h

pub load_next_piece-IsReady :
    (t : Board) → Clear t.fields → IsPiece t.next_piece → IsReady (load_next_piece t)
unfolding load_next_piece
load_next_piece-IsReady t h next =
    (Clear-IsClear (load_next_piece t) h, next, randomize-IsPiece t.active_piece t.rng)

-- A piece that is put down on clear top rows.
place_piece-IsReady :
    (color : ℕ) (t : Board)
    → Clear t.fields
    → IsPiece t.active_piece
    → IsPiece t.next_piece
    → (t' : Board) × (place_piece (mark_fields_occupied_by_piece color t) ≡ some t') × IsReady t'
unfolding place_piece mark_fields_occupied_by_piece
place_piece-IsReady color t h active next =
    let marked = mark_fields_occupied_by_piece color t in
    elim (Bool-cases (is_game_over t.active_piece (blocks t.active_piece))) [
      | inl over ↦ (
        record marked { blocked = true },
        rw over refl,
        (mark-IsClear color t (Clear-IsClear t h), active, next),
      )
      | inr goes_on ↦
          let top : Clear marked.fields = λ y x l.
            mark_blocks-at t.active_piece color (blocks t.active_piece) t.fields y x
            ∙ ground
                (arith, covers-top t.active_piece (blocks t.active_piece) y x goes_on l, h y x l) in
          let (t', returned, rows, stays, same_active, same_next, more_lines, more_score) =
            check_and_remove_lines_lem marked
              (empty_field-is_full marked.fields 1 (top 1 0 (omega arith))) in
          (
            load_next_piece t',
            rw (goes_on, returned) refl,
            load_next_piece-IsReady t' (λ y x l. stays y x l ∙ top y x l)
                (same-IsPiece t'.next_piece t.next_piece same_next next),
          )
    ]

-- What `movePieceDown` does: the piece goes one row down and stays above the bottom, or it is put
-- down.
unfoldable pub Lowered : Board → Bool × Board → Type 0
Lowered t (true, t') =
    (t'.active_piece.pos_y ≡ t.active_piece.pos_y + 1) × (t.active_piece.pos_y + 1 < 22)
Lowered t (false, t') =
    place_piece
      (mark_fields_occupied_by_piece t.active_piece.color (mark_fields_occupied_by_piece 0 t))
    ≡ some t'

first_block-line :
    (f : Fields) (p : Piece) (bs : List Point)
    → length bs ≡ 4
    → all_free f p (pos 0) 1 bs ≡ true
    → p.pos_y + 1 < 22
first_block-line f p [] n e = absurd (omega arith)
first_block-line f p (b ∷ bs) n e = all_free-line f p (pos 0) b bs e

pub move_piece_down-Lowered :
    (t : Board)
    → IsReady t
    → (r : Bool × Board) × (move_piece_down t ≡ some r) × IsReady r.1 × Lowered t r
unfolding move_piece_down Lowered is_move_possible mark_fields_occupied_by_piece redraw_moved
    draw_fields_occupied_by_piece
move_piece_down-Lowered t (h, active, next) =
    let u = mark_fields_occupied_by_piece 0 t in
    let p = t.active_piece in
    let lower : Piece = record p { pos_y = p.pos_y + 1 } in
    elim (Bool-cases (all_free u.fields p (pos 0) 1 (blocks p))) [
      | inl free ↦ (
        (true, redraw_moved lower u),
        rw free refl,
        (Clear-IsClear (redraw_moved lower u) (redraw_moved-Clear lower u h), active, next),
        (refl, first_block-line u.fields p (blocks p) (length-blocks p active) free),
      )
      | inr stuck ↦
          let (t', returned, ready) = place_piece-IsReady p.color u h active next in
          ((false, t'), rw (stuck, returned) refl, ready, returned)
    ]
