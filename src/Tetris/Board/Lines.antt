-- ===== src/Tetris/Board/Lines.antt =====
-- `checkAndRemoveLines` of QSD8250Pkg/Application/TetrisApp/Board.c against the list of its rows.
use msm8909pkg.Base.{
  ℕ, zero, suc, ◌+◌, ◌-◌, ◌*◌, ◌^◌, ◌≤◌, ◌<◌, ◌≡◌, refl, ap, ap₂, ◌∙◌, true, false, Option, some,
  List, [], ◌∷◌, ◌++◌, ◌⊎◌, inl, inr, replicate, if◌then◌else◌, ◌==◌, ltb, Bool-cases, arith,
}
use msm8909pkg.Tetris.Board.{
  Fields, Board, row_full, drop_line, remove_lines, count_lines, check_and_remove_lines,
}
use msm8909pkg.Tetris.Board.Shift.{drop_line-at}
use msm8909pkg.Tetris.Board.Rows.{
  row, is_full, visible, open_rows, full_count, row-ext, row_full-row, visible-drop_line,
  full_count-append, open_rows-append, full_count-le,
}

-- What the loop gives from row `n + 1` up: the open rows sink down in their order, and as many
-- copies of row 1 as lines were full come in above them.
abbrev Sunk : ℕ → Fields → Fields → Type 0
Sunk n f f' =
    (visible n f' ≡ open_rows (visible n f) ++ replicate (full_count (visible n f)) (row f 1))
    × ((y x : ℕ) → (y < 2) ⊎ (n + 2 ≤ y) → f' y x ≡ f y x)

Removed : ℕ → ℕ → Fields → Option (ℕ × Fields) → Type 0
Removed n counter f out =
    (f' : Fields) × (out ≡ some (counter + full_count (visible n f), f')) × Sunk n f f'

append_one :
    (xs : List (List ℕ)) (r : List ℕ) (ys : List (List ℕ)) → (xs ++ (r ∷ [])) ++ ys ≡ xs ++ (r ∷ ys)
append_one [] r ys = refl
append_one (x ∷ xs) r ys = ap (λ (zs : List (List ℕ)). x ∷ zs) (append_one xs r ys)

full_count-full :
    (n : ℕ) (f : Fields)
    → is_full (row f (n + 2)) ≡ true
    → full_count (visible (suc n) f) ≡ suc (full_count (visible n f))
unfolding full_count visible
full_count-full n f full = rw full refl

full_count-open :
    (n : ℕ) (f : Fields)
    → is_full (row f (n + 2)) ≡ false
    → full_count (visible (suc n) f) ≡ full_count (visible n f)
unfolding full_count visible
full_count-open n f opened = rw opened refl

-- The rows after a full line is taken out and the loop goes on, by what it finds.
full_rows :
    (n : ℕ) (f f' : Fields)
    → is_full (row f 1) ≡ false
    → is_full (row f (n + 2)) ≡ true
    → Sunk (suc n) (drop_line (n + 2) f) f'
    → Sunk (suc n) f f'
unfolding open_rows visible
full_rows n f f' top full (rows, others) =
    let g = drop_line (n + 2) f in
    let sunk = visible-drop_line n (n + 2) f (omega arith) in
    let top_row = row-ext g f 1 1 (λ x l. ground (arith, drop_line-at (n + 2) f 1 x)) in
    let count = ap full_count sunk ∙ full_count-append (visible n f) (row f 1) top in
    (
      rows
          ∙ ap₂ (λ (a b : List (List ℕ)). a ++ b)
              (ap open_rows sunk ∙ open_rows-append (visible n f) (row f 1) top)
              (ap₂ (λ (c : ℕ) (r : List ℕ). replicate c r) count top_row)
          ∙ append_one (open_rows (visible n f)) (row f 1)
              (replicate (full_count (visible n f)) (row f 1))
          ∙ rw (full_count-full n f full, full) refl,
      λ y x apart. others y x apart ∙ ground (arith, drop_line-at (n + 2) f y x),
    )

full_step :
    (n counter : ℕ) (f : Fields) (out : Option (ℕ × Fields))
    → is_full (row f 1) ≡ false
    → is_full (row f (n + 2)) ≡ true
    → Removed (suc n) (counter + 1) (drop_line (n + 2) f) out
    → Removed (suc n) counter f out
unfolding Removed
full_step n counter f out top full (f', returned, below) =
    let count =
      ap full_count (visible-drop_line n (n + 2) f (omega arith))
      ∙ full_count-append (visible n f) (row f 1) top in
    (
      f',
      returned ∙ ap (λ (c : ℕ). some (c, f')) (omega (arith, count, full_count-full n f full)),
      full_rows n f f' top full below,
    )

open_step :
    (n counter : ℕ) (f : Fields) (out : Option (ℕ × Fields))
    → is_full (row f (n + 2)) ≡ false
    → Removed n counter f out
    → Removed (suc n) counter f out
unfolding Removed full_count open_rows visible
open_step n counter f out opened (f', returned, below) =
    let (rows, others) = below in
    rw opened (
      f',
      returned,
      (
        ap₂ (λ (r : List ℕ) (rs : List (List ℕ)). r ∷ rs)
            (row-ext f' f (n + 2) (n + 2) (λ x l. others (n + 2) x (inr (omega arith)))) rows,
        λ y x apart. others y x (elim apart [ inl top ↦ inl top | inr low ↦ inr (omega arith) ]),
      ),
    )

remove_lines-full :
    (fuel i counter : ℕ) (f : Fields)
    → 2 ≤ i
    → is_full (row f i) ≡ true
    → remove_lines (suc fuel) i counter f ≡ remove_lines fuel i (counter + 1) (drop_line i f)
unfolding remove_lines
remove_lines-full fuel i counter f h full =
    let seen : ltb i 2 ≡ false = ground arith in
    let test : row_full 10 0 (f i) ≡ true = row_full-row f i ∙ full in rw (test, seen) refl

remove_lines-open :
    (fuel i counter : ℕ) (f : Fields)
    → 2 ≤ i
    → is_full (row f i) ≡ false
    → remove_lines (suc fuel) i counter f ≡ remove_lines fuel (i - 1) counter f
unfolding remove_lines
remove_lines-open fuel i counter f h opened =
    let seen : ltb i 2 ≡ false = ground arith in
    let test : row_full 10 0 (f i) ≡ false = row_full-row f i ∙ opened in rw (test, seen) refl

top_row-drop_line :
    (i : ℕ) (f : Fields) → is_full (row f 1) ≡ false → is_full (row (drop_line i f) 1) ≡ false
top_row-drop_line i f top =
    ap is_full (row-ext (drop_line i f) f 1 1 (λ x l. ground (arith, drop_line-at i f 1 x))) ∙ top

remove_lines-top :
    (fuel i counter : ℕ) (f : Fields)
    → i < 2
    → Removed 0 counter f (remove_lines (suc fuel) i counter f)
unfolding remove_lines Removed full_count open_rows visible
remove_lines-top fuel i counter f h =
    let done : ltb i 2 ≡ true = ground arith in
    rw done (f, ap (λ (c : ℕ). some (c, f)) (omega arith), (refl, λ y x apart. refl))

remove_lines-Removed :
    (fuel n i counter : ℕ) (f : Fields)
    → i ≡ n + 1
    → is_full (row f 1) ≡ false
    → n + full_count (visible n f) < fuel
    → Removed n counter f (remove_lines fuel i counter f)
remove_lines-Removed zero n i counter f e top h = absurd (omega arith)
remove_lines-Removed (suc fuel) zero i counter f e top h =
    remove_lines-top fuel i counter f (omega arith)
remove_lines-Removed (suc fuel) (suc n) i counter f e top h =
    let lowest : i ≡ n + 2 = omega arith in
    elim (Bool-cases (is_full (row f (n + 2)))) [
      | inl full ↦
          let g = drop_line (n + 2) f in
          let count =
            ap full_count (visible-drop_line n (n + 2) f (omega arith))
            ∙ full_count-append (visible n f) (row f 1) top in
          rw (lowest, remove_lines-full fuel (n + 2) counter f (omega arith) full)
            (full_step n counter f _ top full (
              remove_lines-Removed fuel (suc n) (n + 2) (counter + 1) g (omega arith)
                (top_row-drop_line (n + 2) f top) (omega (arith, count, full_count-full n f full))))
      | inr opened ↦
          rw (lowest, remove_lines-open fuel (n + 2) counter f (omega arith) opened)
            (open_step n counter f _ opened (
              remove_lines-Removed fuel n (n + 2 - 1) counter f (omega arith) top
                (omega (arith, full_count-open n f opened))))
    ]

zero_add : (n : ℕ) → 0 + n ≡ n
zero_add n = omega arith

count_lines-next_piece : (n : ℕ) (t : Board) → (count_lines n t).next_piece ≡ t.next_piece
unfolding count_lines
count_lines-next_piece zero t = refl
count_lines-next_piece (suc n) t = refl

count_lines-active_piece : (n : ℕ) (t : Board) → (count_lines n t).active_piece ≡ t.active_piece
unfolding count_lines
count_lines-active_piece zero t = refl
count_lines-active_piece (suc n) t = refl

count_lines_lem :
    (n : ℕ) (t : Board)
    → ((count_lines n t).fields ≡ t.fields)
      × ((count_lines n t).lines ≡ t.lines + n)
      × ((count_lines n t).score
          ≡ t.score + (if n == 0 then 0 else 100 * 2 ^ (n - 1) + 50 * t.level))
unfolding count_lines
count_lines_lem zero t = (refl, omega arith, omega arith)
count_lines_lem (suc n) t =
    let less_one : suc n - 1 ≡ n = omega arith in (refl, refl, rw less_one (ground arith))

-- When row 1 has an empty field, `checkAndRemoveLines` ends within its fuel. The visible rows that
-- are not full sink to the bottom in their order, and above them come as many copies of row 1 as
-- rows were full; the two invisible rows and the pieces stay. The lines grow by the number of full rows, and the
-- score by 100, doubled for each line after the first, and 50 times the level, or stays if no row
-- was full.
pub check_and_remove_lines_lem :
    (t : Board)
    → is_full (row t.fields 1) ≡ false
    → let rows = visible 20 t.fields in
      let n = full_count rows in
      (t' : Board) × (check_and_remove_lines t ≡ some t')
      × (visible 20 t'.fields ≡ open_rows rows ++ replicate n (row t.fields 1))
      × ((y x : ℕ) → y < 2 → t'.fields y x ≡ t.fields y x)
      × (t'.active_piece ≡ t.active_piece)
      × (t'.next_piece ≡ t.next_piece)
      × (t'.lines ≡ t.lines + n)
      × (t'.score ≡ t.score + (if n == 0 then 0 else 100 * 2 ^ (n - 1) + 50 * t.level))
unfolding check_and_remove_lines Removed
check_and_remove_lines_lem t top =
    let (f', returned, below) =
      remove_lines-Removed 41 20 21 0 t.fields refl top
        (omega (arith, full_count-le 20 t.fields)) in
    let (rows, others) = below in
    let n = full_count (visible 20 t.fields) in
    let (kept, more_lines, more_score) = count_lines_lem n (record t { fields = f' }) in
    (
      count_lines n (record t { fields = f' }),
      rw (check_and_remove_lines, returned, zero_add n) refl,
      ap (visible 20) kept ∙ rows,
      λ y x top_two. ap (λ (g : Fields). g y x) kept ∙ others y x (inl top_two),
      count_lines-active_piece n (record t { fields = f' }),
      count_lines-next_piece n (record t { fields = f' }),
      more_lines,
      more_score,
    )
