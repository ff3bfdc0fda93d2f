-- ===== src/Tetris/Board/Marks.antt =====
-- What marking and drawing a piece do to the fields of QSD8250Pkg/Application/TetrisApp/Board.c.
use msm8909pkg.Base.{
  ℕ, ◌+◌, ◌<◌, ◌≡◌, refl, ◌∙◌, Bool, true, false, ◌&&◌, ◌||◌, List, [], ◌∷◌, if◌then◌else◌, ◌==◌,
  arith,
}
use msm8909pkg.Base.Int.{ℤ, pos_part}
use msm8909pkg.Tetris.Piece.{Point, Piece}
use msm8909pkg.Tetris.Board.{
  Fields, column, line, mark_blocks, draw_blocks, redraw_field, is_game_over, all_free, is_free,
}

-- Whether one of the blocks lies on a field.
pub covers : Piece → List Point → ℕ → ℕ → Bool
covers p [] y x = false
covers p (b ∷ bs) y x = ((y == line p b) && (x == pos_part (column p b))) || covers p bs y x

pub mark_blocks-at :
    (p : Piece) (color : ℕ) (bs : List Point) (f : Fields) (y x : ℕ)
    → mark_blocks p color bs f y x ≡ (if covers p bs y x then color else f y x)
unfolding mark_blocks covers
mark_blocks-at p color [] f y x = refl
mark_blocks-at p color (b ∷ bs) f y x =
    mark_blocks-at p color bs
      (λ i j. if (i == line p b) && (j == pos_part (column p b)) then color else f i j) y x
    ∙ ground arith

-- Drawing leaves the invisible rows alone.
pub draw_blocks-top :
    (p : Piece) (color : ℕ) (bs : List Point) (f : Fields) (y x : ℕ)
    → y < 2
    → draw_blocks p color bs f y x ≡ f y x
unfolding draw_blocks redraw_field
draw_blocks-top p color [] f y x h = refl
draw_blocks-top p color (b ∷ bs) f y x h =
    draw_blocks-top p color bs (redraw_field (pos_part (column p b)) (line p b) color f) y x h
    ∙ ground arith

-- A piece with no block in the invisible rows covers none of their fields.
pub covers-top :
    (p : Piece) (bs : List Point) (y x : ℕ)
    → is_game_over p bs ≡ false
    → y < 2
    → covers p bs y x ≡ false
unfolding is_game_over covers
covers-top p [] y x e h = refl
covers-top p (b ∷ bs) y x e h = ground (arith, covers-top p bs y x)

-- A piece that can move down ends above the bottom.
pub all_free-line :
    (f : Fields) (p : Piece) (dx : ℤ) (b : Point) (bs : List Point)
    → all_free f p dx 1 (b ∷ bs) ≡ true
    → p.pos_y + 1 < 22
unfolding all_free is_free
all_free-line f p dx b bs e = ground arith
