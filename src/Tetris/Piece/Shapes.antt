-- ===== src/Tetris/Piece/Shapes.antt =====
-- The shapes that the pieces of QSD8250Pkg/Application/TetrisApp/Piece.c can have.
use msm8909pkg.Base.{
  ℕ, zero, suc, ◌+◌, ◌-◌, ◌%◌, ◌<◌, ◌≡◌, refl, List, [], ◌∷◌, length, get_or, if◌then◌else◌, ◌==◌,
  arith,
}
use msm8909pkg.Tetris.Piece.{
  Point, Piece, Rng, choose, rand, randomize, rotate_cw, rotate_ccw, construct_piece, blocks,
}

-- The bodies are those of a tetrimino, and the pointer stands at the body of the rotation.
abbrev pub IsPiece : Piece → Type 0
IsPiece p = ((n : ℕ) × (p.bodies ≡ (choose n).0)) × (p.body < 4) × (p.rotation ≡ p.body)

four_bodies :
    (a b c d : List Point) (k : ℕ)
    → length a ≡ 4
    → length b ≡ 4
    → length c ≡ 4
    → length d ≡ 4
    → k < 4
    → length (get_or (a ∷ b ∷ c ∷ d ∷ []) k []) ≡ 4
four_bodies a b c d zero ea eb ec ed h = ea
four_bodies a b c d (suc zero) ea eb ec ed h = eb
four_bodies a b c d (suc (suc zero)) ea eb ec ed h = ec
four_bodies a b c d (suc (suc (suc zero))) ea eb ec ed h = ed
four_bodies a b c d (suc (suc (suc (suc k)))) ea eb ec ed h = absurd (omega arith)

choose-length : (n k : ℕ) → k < 4 → length (get_or (choose n).0 k []) ≡ 4
unfolding choose
choose-length zero k h = four_bodies _ _ _ _ k refl refl refl refl h
choose-length (suc zero) k h = four_bodies _ _ _ _ k refl refl refl refl h
choose-length (suc (suc zero)) k h = four_bodies _ _ _ _ k refl refl refl refl h
choose-length (suc (suc (suc zero))) k h = four_bodies _ _ _ _ k refl refl refl refl h
choose-length (suc (suc (suc (suc zero)))) k h = four_bodies _ _ _ _ k refl refl refl refl h
choose-length (suc (suc (suc (suc (suc zero))))) k h = four_bodies _ _ _ _ k refl refl refl refl h
choose-length (suc (suc (suc (suc (suc (suc n)))))) k h =
    four_bodies _ _ _ _ k refl refl refl refl h

-- Every piece has four blocks.
pub length-blocks : (p : Piece) → IsPiece p → length (blocks p) ≡ 4
length-blocks p ((n, e), in_range, same) = rw e (choose-length n p.body in_range)

pub randomize-IsPiece : (p : Piece) (r : Rng) → IsPiece (randomize p r).0
unfolding randomize
randomize-IsPiece p r = (((rand r).0 % 7, refl), omega arith, refl)

pub construct_piece-IsPiece : (r : Rng) → IsPiece (construct_piece r).0
unfolding construct_piece randomize
construct_piece-IsPiece r = (((rand (rand r).1).0 % 7, refl), omega arith, refl)

pub rotate_cw-IsPiece : (p : Piece) → IsPiece p → IsPiece (rotate_cw p)
unfolding rotate_cw
rotate_cw-IsPiece p (shape, in_range, same) = (shape, omega arith, refl)

-- Turning a piece and turning it back gives the piece, its pointer and its rotation included.
pub rotate_ccw-rotate_cw : (p : Piece) → IsPiece p → rotate_ccw (rotate_cw p) ≡ p
unfolding rotate_cw rotate_ccw
rotate_ccw-rotate_cw p (shape, in_range, same) =
    let back : (if (p.rotation + 1) % 4 == 0 then 3 else (p.rotation + 1) % 4 - 1) ≡ p.rotation =
      ground arith in
    rw back (rw same refl)
