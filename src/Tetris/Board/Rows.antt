-- ===== src/Tetris/Board/Rows.antt =====
-- The visible rows of the board of QSD8250Pkg/Application/TetrisApp/Board.c as a list, and what a
-- line taken out does to it.
use msm8909pkg.Base.{
  ℕ, zero, suc, ◌+◌, ◌-◌, ◌≤◌, ◌<◌, ◌≡◌, refl, ap, ap₂, ◌∙◌, Bool, true, false, not, ◌&&◌, List, [],
  ◌∷◌, ◌++◌, inl, inr, if◌then◌else◌, ◌==◌, Bool-cases, arith,
}
use msm8909pkg.Tetris.Board.{Fields, row_full, drop_line}
use msm8909pkg.Tetris.Board.Shift.{drop_line-at}

-- The fields of a row from a column on.
pub columns : ℕ → ℕ → (ℕ → ℕ) → List ℕ
columns zero j row = []
columns (suc left) j row = row j ∷ columns left (j + 1) row

unfoldable pub row : Fields → ℕ → List ℕ
unfolding columns
row f y = columns 10 0 (f y)

-- No field of the row is empty.
unfoldable pub is_full : List ℕ → Bool
is_full [] = true
is_full (c ∷ cs) = not (c == 0) && is_full cs

-- The `n` visible rows from row `n + 1` up, the lowest one first.
unfoldable pub visible : ℕ → Fields → List (List ℕ)
visible zero f = []
visible (suc n) f = row f (n + 2) ∷ visible n f

unfoldable pub open_rows : List (List ℕ) → List (List ℕ)
open_rows [] = []
open_rows (r ∷ rs) = if is_full r then open_rows rs else r ∷ open_rows rs

unfoldable pub full_count : List (List ℕ) → ℕ
full_count [] = 0
full_count (r ∷ rs) = if is_full r then suc (full_count rs) else full_count rs

columns-ext :
    (left j : ℕ) (g h : ℕ → ℕ)
    → ((x : ℕ) → x < j + left → g x ≡ h x)
    → columns left j g ≡ columns left j h
unfolding columns
columns-ext zero j g h e = refl
columns-ext (suc left) j g h e =
    ap₂ (λ (c : ℕ) (cs : List ℕ). c ∷ cs) (e j (omega arith))
      (columns-ext left (j + 1) g h (λ x l. e x (omega arith)))

pub row-ext : (f g : Fields) (y z : ℕ) → ((x : ℕ) → x < 10 → f y x ≡ g z x) → row f y ≡ row g z
unfolding row
row-ext f g y z e = columns-ext 10 0 (f y) (g z) (λ x l. e x (omega arith))

pub row_full-columns : (left j : ℕ) (g : ℕ → ℕ) → row_full left j g ≡ is_full (columns left j g)
unfolding row_full is_full columns
row_full-columns zero j g = refl
row_full-columns (suc left) j g =
    ap (λ (b : Bool). not (g j == 0) && b) (row_full-columns left (j + 1) g)

pub row_full-row : (f : Fields) (y : ℕ) → row_full 10 0 (f y) ≡ is_full (row f y)
unfolding row
row_full-row f y = row_full-columns 10 0 (f y)

pub visible-ext :
    (n : ℕ) (f g : Fields)
    → ((y x : ℕ) → 2 ≤ y → y < n + 2 → x < 10 → f y x ≡ g y x)
    → visible n f ≡ visible n g
unfolding visible
visible-ext zero f g e = refl
visible-ext (suc n) f g e =
    ap₂ (λ (r : List ℕ) (rs : List (List ℕ)). r ∷ rs)
      (row-ext f g (n + 2) (n + 2) (λ x l. e (n + 2) x (omega arith) (omega arith) l))
      (visible-ext n f g (λ y x low high l. e y x low (omega arith) l))

-- The rows above a line that is taken out move down, and row 1 becomes visible.
pub visible-drop_line :
    (n i : ℕ) (f : Fields)
    → n + 2 ≤ i
    → visible (suc n) (drop_line i f) ≡ visible n f ++ (row f 1 ∷ [])
unfolding visible
visible-drop_line zero i f h =
    ap (λ (r : List ℕ). r ∷ [])
      (row-ext (drop_line i f) f 2 1 (λ x l. ground (arith, drop_line-at i f 2 x)))
visible-drop_line (suc n) i f h =
    ap₂ (λ (r : List ℕ) (rs : List (List ℕ)). r ∷ rs)
      (row-ext (drop_line i f) f (suc n + 2) (n + 2) (λ x l.
        let up : suc n + 2 - 1 ≡ n + 2 = omega arith in
        drop_line-at i f (suc n + 2) x ∙ ground (arith, ap (λ (y : ℕ). f y x) up)))
      (visible-drop_line n i f (omega arith))

pub full_count-append :
    (rs : List (List ℕ)) (r : List ℕ)
    → is_full r ≡ false
    → full_count (rs ++ (r ∷ [])) ≡ full_count rs
unfolding full_count
full_count-append [] r h = rw h refl
full_count-append (s ∷ rs) r h = ground (arith, full_count-append rs r h)

pub open_rows-append :
    (rs : List (List ℕ)) (r : List ℕ)
    → is_full r ≡ false
    → open_rows (rs ++ (r ∷ [])) ≡ open_rows rs ++ (r ∷ [])
unfolding open_rows
open_rows-append [] r h = rw h refl
open_rows-append (s ∷ rs) r h = elim (Bool-cases (is_full s)) [
  | inl e ↦ rw e (open_rows-append rs r h)
  | inr e ↦ rw e (ap (λ (xs : List (List ℕ)). s ∷ xs) (open_rows-append rs r h))
]

pub full_count-le : (n : ℕ) (f : Fields) → full_count (visible n f) ≤ n
unfolding full_count visible
full_count-le zero f = omega arith
full_count-le (suc n) f = ground (arith, full_count-le n f)
