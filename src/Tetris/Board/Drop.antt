-- ===== src/Tetris/Board/Drop.antt =====
-- `dropPiece` of QSD8250Pkg/Application/TetrisApp/Board.c as a sequence of `movePieceDown`.
use msm8909pkg.Base.{
  ℕ, zero, suc, ◌+◌, ◌-◌, ◌*◌, ◌≤◌, ◌≡◌, refl, Bool, true, false, Option, some, arith,
}
use msm8909pkg.Tetris.Board.{Board, move_piece_down, after_down, drop_moves, drop_piece}
use msm8909pkg.Tetris.Board.Fall.{IsReady, Lowered, move_piece_down-Lowered}

-- A piece that moves down `height` times and is then put down, and the board after that.
pub data Falls : ℕ → Board → Board → Type 0 where
  lands : {t t' : Board} → move_piece_down t ≡ some (false, t') → Falls 0 t t'
  moves :
      {height : ℕ} {t t₁ t' : Board}
      → move_piece_down t ≡ some (true, t₁)
      → Falls height t₁ t'
      → Falls (suc height) t t'

abbrev Dropped : Board → Option (ℕ × Board) → Type 0
Dropped t out =
    (height : ℕ) × (t' : Board) × (out ≡ some (height, t'))
    × Falls height t t'
    × IsReady t'
    × (height ≤ 21 - t.active_piece.pos_y)

after_move :
    (fuel : ℕ) (t t₁ : Board)
    → move_piece_down t ≡ some (true, t₁)
    → Lowered t (true, t₁)
    → Dropped t₁ (drop_moves fuel t₁)
    → Dropped t (drop_moves (suc fuel) t)
unfolding drop_moves after_down Lowered
after_move fuel t t₁ e (lower, above) (height, t', returned, falls, ready, bound) =
    (suc height, t', rw (e, returned) refl, moves e falls, ready, omega arith)

after_landing :
    (fuel : ℕ) (t t' : Board)
    → move_piece_down t ≡ some (false, t')
    → IsReady t'
    → Dropped t (drop_moves (suc fuel) t)
unfolding drop_moves after_down
after_landing fuel t t' e ready = (0, t', rw e refl, lands e, ready, omega arith)

by_move :
    (fuel : ℕ) (t : Board) (r : Bool × Board)
    → move_piece_down t ≡ some r
    → IsReady r.1
    → Lowered t r
    → 23 ≤ suc fuel + t.active_piece.pos_y
    → ((t₁ : Board)
        → IsReady t₁
        → 1 ≤ fuel
        → 23 ≤ fuel + t₁.active_piece.pos_y
        → Dropped t₁ (drop_moves fuel t₁))
    → Dropped t (drop_moves (suc fuel) t)
unfolding Lowered
by_move fuel t (false, t') e ready put_down enough again = after_landing fuel t t' e ready
by_move fuel t (true, t₁) e ready (lower, above) enough again =
    after_move fuel t t₁ e (lower, above) (again t₁ ready (omega arith) (omega arith))

drop_moves-Dropped :
    (fuel : ℕ) (t : Board)
    → IsReady t
    → 1 ≤ fuel
    → 23 ≤ fuel + t.active_piece.pos_y
    → Dropped t (drop_moves fuel t)
drop_moves-Dropped zero t ready some_fuel enough = absurd (omega arith)
drop_moves-Dropped (suc fuel) t ready some_fuel enough =
    let (r, e, ready', lowered) = move_piece_down-Lowered t ready in
    by_move fuel t r e ready' lowered enough (drop_moves-Dropped fuel)

-- On a board between two moves, `dropPiece` ends: it is a sequence of `movePieceDown`, at most 21 of
-- which move the piece, the last of which puts it down, and then the score grows by 2 for each row
-- that the piece fell. The board after it is again one between two moves.
pub drop_piece_lem :
    (t : Board)
    → IsReady t
    → (height : ℕ) × (t' : Board) × Falls height t t'
      × (height ≤ 21)
      × (drop_piece t ≡ some (record t' { score = t'.score + 2 * height }))
      × IsReady (record t' { score = t'.score + 2 * height })
unfolding drop_piece
drop_piece_lem t ready =
    let (height, t', returned, falls, ready', bound) =
      drop_moves-Dropped 23 t ready (omega arith) (omega arith) in
    (height, t', falls, omega arith, rw (drop_piece, returned) refl, ready')
