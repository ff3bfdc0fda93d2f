-- ===== src/Tetris/Board.antt =====
-- The board of QSD8250Pkg/Application/TetrisApp/Board.c. What it draws on the screen is left out.
pub mod Shift
pub mod Rows
pub mod Lines
pub mod Marks
pub mod Top
pub mod Fall
pub mod Drop
pub mod Ready
pub mod Inside
use msm8909pkg.Base.{
  ℕ, zero, suc, ◌+◌, ◌-◌, ◌*◌, ◌^◌, Bool, true, false, not, ◌&&◌, ◌||◌, Option, none, some, List,
  [], ◌∷◌, if◌then◌else◌, ◌==◌, ltb, leb,
}
use msm8909pkg.Base.Int.{ℤ, pos, negsuc, ◌+ℤ◌, ltb_ℤ, pos_part}
use msm8909pkg.Tetris.Piece.{
  Point, Piece, Rng, randomize, rotate_cw, rotate_ccw, construct_piece, blocks,
}

abbrev pub board_height : ℕ
board_height = 22

abbrev pub invisible_rows_count : ℕ
invisible_rows_count = 2

abbrev pub board_width : ℕ
board_width = 10

-- `EMPTY_FIELD`, which is `EFI_BLACK`.
abbrev pub empty_field : ℕ
empty_field = 0

-- The array of fields: its colour at a row below 22 and a column below 10.
abbrev pub Fields : Type 0
Fields = ℕ → ℕ → ℕ

abbrev pub put : ℕ → ℕ → ℕ → Fields → Fields
put y x color f i j = if (i == y) && (j == x) then color else f i j

-- `Board`. `rng` holds the static variables of `rand`.
pub record Board : Type 0 where
  pub next_piece : Piece
  pub active_piece : Piece
  pub fields : Fields
  pub blocked : Bool
  pub level : ℕ
  pub lines : ℕ
  pub score : ℕ
  pub rng : Rng

abbrev pub column : Piece → Point → ℤ
column p b = pos b.x +ℤ p.pos_x

abbrev pub line : Piece → Point → ℕ
line p b = b.y + p.pos_y

-- The test of `isMovePossible` for one block. A row below 0 does not occur.
pub is_free : Fields → ℤ → ℕ → Bool
is_free f fx fy = not (
    ltb_ℤ fx (pos 0)
    || not (ltb_ℤ fx (pos board_width))
    || not (ltb fy board_height)
    || not (f fy (pos_part fx) == empty_field))

pub all_free : Fields → Piece → ℤ → ℕ → List Point → Bool
all_free f p dx dy [] = true
all_free f p dx dy (b ∷ bs) = is_free f (column p b +ℤ dx) (line p b + dy) && all_free f p dx dy bs

pub is_move_possible : Board → ℤ → ℕ → Bool
is_move_possible t dx dy = all_free t.fields t.active_piece dx dy (blocks t.active_piece)

-- The loop of `markFieldsOccupiedByPiece` over the blocks.
pub mark_blocks : Piece → ℕ → List Point → Fields → Fields
mark_blocks p color [] f = f
mark_blocks p color (b ∷ bs) f =
    mark_blocks p color bs (put (line p b) (pos_part (column p b)) color f)

pub mark_fields_occupied_by_piece : ℕ → Board → Board
mark_fields_occupied_by_piece color t = record t {
  fields = mark_blocks t.active_piece color (blocks t.active_piece) t.fields;
}

-- What `redrawField` does to the fields: the invisible rows stay.
pub redraw_field : ℕ → ℕ → ℕ → Fields → Fields
redraw_field x y color f = if leb invisible_rows_count y then put y x color f else f

-- The loop of `drawFieldsOccupiedByPiece` over the blocks.
pub draw_blocks : Piece → ℕ → List Point → Fields → Fields
draw_blocks p color [] f = f
draw_blocks p color (b ∷ bs) f =
    draw_blocks p color bs (redraw_field (pos_part (column p b)) (line p b) color f)

pub draw_fields_occupied_by_piece : ℕ → Board → Board
draw_fields_occupied_by_piece color t = record t {
  fields = draw_blocks t.active_piece color (blocks t.active_piece) t.fields;
}

-- A piece that has changed, drawn: black where it was, and its colour where it is.
pub redraw_moved : Piece → Board → Board
redraw_moved p t =
    draw_fields_occupied_by_piece p.color
      (record (draw_fields_occupied_by_piece empty_field t) { active_piece = p })

-- `rotatePiece`. Where the turned piece fits, it is turned back while the old place is drawn black.
pub rotate_piece : Board → Board
rotate_piece t =
    let unmarked = mark_fields_occupied_by_piece empty_field t in
    let turned = rotate_cw t.active_piece in
    let back = rotate_ccw turned in
    if not (is_move_possible (record unmarked { active_piece = turned }) (pos 0) 0)
    then mark_fields_occupied_by_piece back.color (record unmarked { active_piece = back })
    else redraw_moved (rotate_cw back) (record unmarked { active_piece = back })

-- `movePieceLeft` at -1, and `movePieceRight` at 1.
pub move_piece_sideways : ℤ → Board → Board
move_piece_sideways dx t =
    let unmarked = mark_fields_occupied_by_piece empty_field t in
    let p = t.active_piece in
    mark_fields_occupied_by_piece p.color (
      if is_move_possible unmarked dx 0
      then redraw_moved (record p { pos_x = p.pos_x +ℤ dx }) unmarked
      else unmarked)

pub move_piece_left : Board → Board
move_piece_left t = move_piece_sideways (negsuc 0) t

pub move_piece_right : Board → Board
move_piece_right t = move_piece_sideways (pos 1) t

-- `isGameOver`
pub is_game_over : Piece → List Point → Bool
is_game_over p [] = false
is_game_over p (b ∷ bs) = ltb (line p b) invisible_rows_count || is_game_over p bs

-- The test of a row for an empty field, from a column on.
pub row_full : ℕ → ℕ → (ℕ → ℕ) → Bool
row_full zero j row = true
row_full (suc left) j row = not (row j == empty_field) && row_full left (j + 1) row

-- The row above, copied field by field from a column on.
pub copy_row : ℕ → ℕ → ℕ → Fields → Fields
copy_row zero k j f = f
copy_row (suc left) k j f = copy_row left (k + 1) j (redraw_field k j (f (j - 1) k) f)

-- The row drawn black from a column on.
pub blacken_row : ℕ → ℕ → ℕ → Fields → Fields
blacken_row zero k i f = f
blacken_row (suc left) k i f = blacken_row left (k + 1) i (redraw_field k i empty_field f)

-- The rows from `j` up to 1, each a copy of the one above it.
pub shift_rows : ℕ → Fields → Fields
shift_rows zero f = f
shift_rows (suc j) f = shift_rows j (copy_row board_width 0 (suc j) f)

-- A full line taken out.
pub drop_line : ℕ → Fields → Fields
drop_line i f = shift_rows i (blacken_row board_width 0 i f)

-- The outer loop of `checkAndRemoveLines` at the row `i`, on fuel: the number of lines taken out, and
-- the fields. After a line is taken out, the same row is looked at again.
pub remove_lines : ℕ → ℕ → ℕ → Fields → Option (ℕ × Fields)
remove_lines zero i counter f = none
remove_lines (suc fuel) i counter f =
    let full = row_full board_width 0 (f i) in
    let next =
      remove_lines fuel (if full then i else i - 1) (if full then counter + 1 else counter)
        (if full then drop_line i f else f) in
    if ltb i invisible_rows_count then some (counter, f) else next

-- The lines and the score after `counter` lines.
pub count_lines : ℕ → Board → Board
count_lines zero t = t
count_lines (suc n) t = record t {
  lines = t.lines + suc n;
  score = t.score + 100 * 2 ^ n + 50 * t.level;
}

-- `checkAndRemoveLines`. There are 20 rows to look at, and at most 20 lines to take out.
pub check_and_remove_lines : Board → Option Board
check_and_remove_lines t = elim (remove_lines 41 (board_height - 1) 0 t.fields) [
  | none ↦ none
  | some (counter, f) ↦ some (count_lines counter (record t { fields = f }))
]

pub load_next_piece : Board → Board
load_next_piece t =
    let (next, rng) = randomize t.active_piece t.rng in
    let active = record t.next_piece { pos_x = pos 4; pos_y = 0 } in
    record t { active_piece = active; next_piece = next; rng = rng }

pub place_piece : Board → Option Board
place_piece t =
    if is_game_over t.active_piece (blocks t.active_piece)
    then some (record t { blocked = true })
    else elim (check_and_remove_lines t) [ none ↦ none | some t' ↦ some (load_next_piece t') ]

-- Whether the piece could move, and the board.
pub move_piece_down : Board → Option (Bool × Board)
move_piece_down t =
    let unmarked = mark_fields_occupied_by_piece empty_field t in
    let p = t.active_piece in
    let placed = place_piece (mark_fields_occupied_by_piece p.color unmarked) in
    if is_move_possible unmarked (pos 0) 1
    then some (true, redraw_moved (record p { pos_y = p.pos_y + 1 }) unmarked)
    else elim placed [ none ↦ none | some t' ↦ some (false, t') ]

-- What a round of the loop of `dropPiece` does with the result of the move; `again` is the next
-- round.
after_down : Option (Bool × Board) → (Board → Option (ℕ × Board)) → Option (ℕ × Board)
after_down none again = none
after_down (some (false, t)) again = some (0, t)
after_down (some (true, t)) again = elim (again t) [
  | none ↦ none
  | some (height, t') ↦ some (suc height, t')
]

-- The loop of `dropPiece`, on fuel: the number of moves, and the board.
pub drop_moves : ℕ → Board → Option (ℕ × Board)
unfolding after_down
drop_moves zero t = none
drop_moves (suc fuel) t = after_down (move_piece_down t) (drop_moves fuel)

-- `dropPiece`: no piece falls further than the board is high.
pub drop_piece : Board → Option Board
drop_piece t = elim (drop_moves (board_height + 1) t) [
  | none ↦ none
  | some (height, t') ↦ some (record t' { score = t'.score + 2 * height })
]

-- `ConstructBoard` at the second of the clock.
pub construct_board : ℕ → Board
construct_board second =
    let clock : Rng = record { previous_value = 0; initialized = false; second = second } in
    let (next, rng) = construct_piece clock in
    let (active, rng') = construct_piece rng in
    load_next_piece (record {
      next_piece = next;
      active_piece = active;
      fields = λ y x. 0;
      blocked = false;
      level = 1;
      lines = 0;
      score = 0;
      rng = rng';
    })
