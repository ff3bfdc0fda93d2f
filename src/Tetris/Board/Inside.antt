-- ===== src/Tetris/Board/Inside.antt =====
-- Where the active piece of QSD8250Pkg/Application/TetrisApp/Board.c lies: the fields that its blocks
-- index.
use msm8909pkg.Base.{
  ℕ, ◌+◌, ◌≡◌, ◌≢◌, refl, sym, ap, ◌∙◌, Bool, true, false, not, ◌&&◌, List, [], ◌∷◌, ltb, Option,
  none, some, Bool-cases, inl, inr, arith,
}
use msm8909pkg.Base.Int.{ℤ, pos, negsuc, ◌+ℤ◌, ltb_ℤ, int_laws}
use msm8909pkg.Tetris.Piece.{Point, Piece, blocks, rotate_cw}
use msm8909pkg.Tetris.Piece.Shapes.{IsPiece, rotate_ccw-rotate_cw}
use msm8909pkg.Tetris.Board.{
  Fields, Board, move_piece_down, place_piece, column, line, is_free, all_free, is_move_possible,
  move_piece_sideways, move_piece_left, move_piece_right, rotate_piece, redraw_moved,
  mark_fields_occupied_by_piece, draw_fields_occupied_by_piece,
}

-- A column from 0 to 9 and a row below 22.
unfoldable pub inside : ℤ → ℕ → Bool
inside x y = not (ltb_ℤ x (pos 0)) && ltb_ℤ x (pos 10) && ltb y 22

-- Every block of the piece lies inside.
unfoldable pub on_board : Piece → List Point → Bool
on_board p [] = true
on_board p (b ∷ bs) = inside (column p b) (line p b) && on_board p bs

add_assoc : (a b c : ℤ) → a +ℤ (b +ℤ c) ≡ (a +ℤ b) +ℤ c
add_assoc a b c = grind int_laws

add_zero : (a : ℤ) → a +ℤ pos 0 ≡ a
add_zero a = grind int_laws

is_free-inside : (f : Fields) (x : ℤ) (y : ℕ) → is_free f x y ≡ true → inside x y ≡ true
unfolding is_free inside
is_free-inside f x y e = ground arith

and_parts : (a b : Bool) → (a && b) ≡ true → (a ≡ true) × (b ≡ true)
and_parts a b e = ground arith

-- A move that is possible leaves the piece on the board.
all_free-on_board :
    (f : Fields) (p q : Piece) (dx : ℤ) (dy : ℕ) (bs : List Point)
    → q.pos_x ≡ p.pos_x +ℤ dx
    → q.pos_y ≡ p.pos_y + dy
    → all_free f p dx dy bs ≡ true
    → on_board q bs ≡ true
unfolding all_free on_board
all_free-on_board f p q dx dy [] ex ey e = refl
all_free-on_board f p q dx dy (b ∷ bs) ex ey e =
    let here : column q b ≡ column p b +ℤ dx =
      ap (λ (z : ℤ). pos b.x +ℤ z) ex ∙ add_assoc (pos b.x) p.pos_x dx in
    let low : line q b ≡ line p b + dy = omega arith in
    let (free, others) =
      and_parts (is_free f (column p b +ℤ dx) (line p b + dy)) (all_free f p dx dy bs) e in
    rw (here, low, is_free-inside f (column p b +ℤ dx) (line p b + dy) free)
      (all_free-on_board f p q dx dy bs ex ey others)

-- The active piece lies on the board.
abbrev pub IsOnBoard : Board → Type 0
IsOnBoard t = on_board t.active_piece (blocks t.active_piece) ≡ true

is_move_possible-on_board :
    (t : Board) (q : Piece) (dx : ℤ) (dy : ℕ)
    → blocks q ≡ blocks t.active_piece
    → q.pos_x ≡ t.active_piece.pos_x +ℤ dx
    → q.pos_y ≡ t.active_piece.pos_y + dy
    → is_move_possible t dx dy ≡ true
    → on_board q (blocks q) ≡ true
unfolding is_move_possible
is_move_possible-on_board t q dx dy same ex ey free =
    rw same (all_free-on_board t.fields t.active_piece q dx dy (blocks t.active_piece) ex ey free)

pub move_piece_sideways-IsOnBoard :
    (dx : ℤ) (t : Board) → IsOnBoard t → IsOnBoard (move_piece_sideways dx t)
unfolding move_piece_sideways mark_fields_occupied_by_piece redraw_moved
    draw_fields_occupied_by_piece
move_piece_sideways-IsOnBoard dx t h =
    let p = t.active_piece in
    let u = mark_fields_occupied_by_piece 0 t in
    let moved : Piece = record p { pos_x = p.pos_x +ℤ dx } in
    elim (Bool-cases (is_move_possible u dx 0)) [
      | inl free ↦ rw free (is_move_possible-on_board u moved dx 0 refl refl (omega arith) free)
      | inr stuck ↦ rw stuck h
    ]

rotate_piece-IsOnBoard :
    (t : Board) → IsPiece t.active_piece → IsOnBoard t → IsOnBoard (rotate_piece t)
unfolding rotate_piece mark_fields_occupied_by_piece redraw_moved draw_fields_occupied_by_piece
rotate_piece-IsOnBoard t piece h =
    let p = t.active_piece in
    let u : Board = record (mark_fields_occupied_by_piece 0 t) { active_piece = rotate_cw p } in
    rw (rotate_ccw-rotate_cw p piece) (elim (Bool-cases (is_move_possible u (pos 0) 0)) [
      | inl free ↦ rw free (
          is_move_possible-on_board u (rotate_cw p) (pos 0) 0 refl
            (sym (add_zero (rotate_cw p).pos_x)) (omega arith) free)
      | inr stuck ↦ rw stuck h
    ])

moved_flag : Option (Bool × Board) → Bool
moved_flag none = false
moved_flag (some (b, t)) = b

moved_board : Board → Option (Bool × Board) → Board
moved_board t none = t
moved_board t (some (b, t')) = t'

false_ne_true : false ≢ true
false_ne_true h = ground (arith, h)

not_moved :
    (o : Option Board) → moved_flag (elim o [ none ↦ none | some t ↦ some (false, t) ]) ≡ false
unfolding moved_flag
not_moved none = refl
not_moved (some t) = refl

-- A piece that `movePieceDown` moves lies on the board afterwards.
pub move_piece_down-IsOnBoard : (t t' : Board) → move_piece_down t ≡ some (true, t') → IsOnBoard t'
unfolding move_piece_down mark_fields_occupied_by_piece redraw_moved draw_fields_occupied_by_piece
    moved_flag moved_board
move_piece_down-IsOnBoard t t' e =
    let p = t.active_piece in
    let u = mark_fields_occupied_by_piece 0 t in
    let lower : Piece = record p { pos_y = p.pos_y + 1 } in
    elim (Bool-cases (is_move_possible u (pos 0) 1)) [
      | inl free ↦
          let goes : move_piece_down t ≡ some (true, redraw_moved lower u) = rw free refl in
          let same : redraw_moved lower u ≡ t' = ap (moved_board t) (sym goes ∙ e) in
          ap (λ (b : Board). on_board b.active_piece (blocks b.active_piece)) (sym same)
          ∙ is_move_possible-on_board u lower (pos 0) 1 refl (sym (add_zero p.pos_x)) refl free
      | inr stuck ↦
          let stays : moved_flag (move_piece_down t) ≡ false =
            rw stuck (not_moved (place_piece (mark_fields_occupied_by_piece p.color u))) in
          let goes : moved_flag (move_piece_down t) ≡ true = ap moved_flag e in
          absurd (false_ne_true (sym stays ∙ goes))
    ]

-- A piece on the board stays there when it is moved to a side or turned, whether or not the move is
-- possible: all its blocks keep columns from 0 to 9 and rows below 22, so that the fields which are
-- marked lie in the array.
pub sideways_and_turns-IsOnBoard :
    (t : Board)
    → IsPiece t.active_piece
    → IsOnBoard t
    → IsOnBoard (move_piece_left t) × IsOnBoard (move_piece_right t) × IsOnBoard (rotate_piece t)
unfolding move_piece_left move_piece_right
sideways_and_turns-IsOnBoard t piece h = (
  move_piece_sideways-IsOnBoard (negsuc 0) t h,
  move_piece_sideways-IsOnBoard (pos 1) t h,
  rotate_piece-IsOnBoard t piece h,
)
