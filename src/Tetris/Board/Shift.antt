-- ===== src/Tetris/Board/Shift.antt =====
-- What the column and row loops of `checkAndRemoveLines` do to a field.
use msm8909pkg.Base.{
  ℕ, zero, suc, ◌+◌, ◌-◌, ◌≤◌, ◌≡◌, ◌∙◌, ◌&&◌, if◌then◌else◌, ◌==◌, ltb, leb, arith,
}
use msm8909pkg.Tetris.Board.{Fields, redraw_field, copy_row, blacken_row, shift_rows, drop_line}

copy_row-at :
    (left k j : ℕ) (f : Fields) (y x : ℕ)
    → 1 ≤ j
    → copy_row left k j f y x
      ≡ (if (y == j) && leb k x && ltb x (k + left) && leb 2 j then f (j - 1) x else f y x)
unfolding copy_row redraw_field
copy_row-at zero k j f y x h = ground arith
copy_row-at (suc left) k j f y x h =
    ground (arith, copy_row-at left (k + 1) j (redraw_field k j (f (j - 1) k) f) y x h)

blacken_row-at :
    (left k i : ℕ) (f : Fields) (y x : ℕ)
    → blacken_row left k i f y x
      ≡ (if (y == i) && leb k x && ltb x (k + left) && leb 2 i then 0 else f y x)
unfolding blacken_row redraw_field
blacken_row-at zero k i f y x = ground arith
blacken_row-at (suc left) k i f y x =
    ground (arith, blacken_row-at left (k + 1) i (redraw_field k i 0 f) y x)

shift_rows-at :
    (j : ℕ) (f : Fields) (y x : ℕ)
    → shift_rows j f y x ≡ (if leb 2 y && leb y j && ltb x 10 then f (y - 1) x else f y x)
unfolding shift_rows
shift_rows-at zero f y x = ground arith
shift_rows-at (suc j) f y x =
    shift_rows-at j (copy_row 10 0 (suc j) f) y x
    ∙ ground (
      arith,
      copy_row-at 10 0 (suc j) f y x (omega arith),
      copy_row-at 10 0 (suc j) f (y - 1) x (omega arith),
    )

-- A line taken out moves every row above it, from row 1 on, down by one.
pub drop_line-at :
    (i : ℕ) (f : Fields) (y x : ℕ)
    → drop_line i f y x ≡ (if leb 2 y && leb y i && ltb x 10 then f (y - 1) x else f y x)
unfolding drop_line
drop_line-at i f y x =
    shift_rows-at i (blacken_row 10 0 i f) y x
    ∙ ground (arith, blacken_row-at 10 0 i f y x, blacken_row-at 10 0 i f (y - 1) x)
