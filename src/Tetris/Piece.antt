-- ===== src/Tetris/Piece.antt =====
-- The pieces of QSD8250Pkg/Application/TetrisApp: Piece.c, and the bodies of Piece.h.
pub mod Shapes
use msm8909pkg.Base.{
  ℕ, zero, suc, ◌+◌, ◌-◌, ◌*◌, ◌%◌, ◌^◌, Bool, true, List, [], ◌∷◌, if◌then◌else◌, ◌==◌, get_or,
}
use msm8909pkg.Base.Int.{ℤ, pos}

-- A block of a body; its coordinates are 0 to 3.
pub record Point : Type 0 where
  pub x : ℕ
  pub y : ℕ

abbrev at : ℕ → ℕ → Point
at i j = record { x = i; y = j }

abbrev pub tetrimino_i_body : List (List Point)
tetrimino_i_body =
    (at 0 1 ∷ at 1 1 ∷ at 2 1 ∷ at 3 1 ∷ [])
    ∷ (at 2 0 ∷ at 2 1 ∷ at 2 2 ∷ at 2 3 ∷ [])
    ∷ (at 0 2 ∷ at 1 2 ∷ at 2 2 ∷ at 3 2 ∷ [])
    ∷ (at 1 0 ∷ at 1 1 ∷ at 1 2 ∷ at 1 3 ∷ [])
    ∷ []

abbrev pub tetrimino_j_body : List (List Point)
tetrimino_j_body =
    (at 0 0 ∷ at 0 1 ∷ at 1 1 ∷ at 2 1 ∷ [])
    ∷ (at 1 2 ∷ at 1 1 ∷ at 1 0 ∷ at 2 0 ∷ [])
    ∷ (at 0 1 ∷ at 1 1 ∷ at 2 1 ∷ at 2 2 ∷ [])
    ∷ (at 0 2 ∷ at 1 2 ∷ at 1 1 ∷ at 1 0 ∷ [])
    ∷ []

abbrev pub tetrimino_l_body : List (List Point)
tetrimino_l_body =
    (at 0 1 ∷ at 1 1 ∷ at 2 1 ∷ at 2 0 ∷ [])
    ∷ (at 1 2 ∷ at 1 1 ∷ at 1 0 ∷ at 2 2 ∷ [])
    ∷ (at 0 1 ∷ at 1 1 ∷ at 2 1 ∷ at 0 2 ∷ [])
    ∷ (at 0 0 ∷ at 1 2 ∷ at 1 1 ∷ at 1 0 ∷ [])
    ∷ []

abbrev pub tetrimino_o_body : List (List Point)
tetrimino_o_body =
    (at 1 0 ∷ at 1 1 ∷ at 2 0 ∷ at 2 1 ∷ [])
    ∷ (at 1 0 ∷ at 1 1 ∷ at 2 0 ∷ at 2 1 ∷ [])
    ∷ (at 1 0 ∷ at 1 1 ∷ at 2 0 ∷ at 2 1 ∷ [])
    ∷ (at 1 0 ∷ at 1 1 ∷ at 2 0 ∷ at 2 1 ∷ [])
    ∷ []

abbrev pub tetrimino_s_body : List (List Point)
tetrimino_s_body =
    (at 0 1 ∷ at 1 1 ∷ at 1 0 ∷ at 2 0 ∷ [])
    ∷ (at 1 0 ∷ at 1 1 ∷ at 2 1 ∷ at 2 2 ∷ [])
    ∷ (at 0 2 ∷ at 1 2 ∷ at 1 1 ∷ at 2 1 ∷ [])
    ∷ (at 0 0 ∷ at 0 1 ∷ at 1 1 ∷ at 1 2 ∷ [])
    ∷ []

abbrev pub tetrimino_t_body : List (List Point)
tetrimino_t_body =
    (at 0 1 ∷ at 1 1 ∷ at 2 1 ∷ at 1 0 ∷ [])
    ∷ (at 1 0 ∷ at 1 1 ∷ at 1 2 ∷ at 2 1 ∷ [])
    ∷ (at 0 1 ∷ at 1 1 ∷ at 2 1 ∷ at 1 2 ∷ [])
    ∷ (at 1 0 ∷ at 1 1 ∷ at 1 2 ∷ at 0 1 ∷ [])
    ∷ []

abbrev pub tetrimino_z_body : List (List Point)
tetrimino_z_body =
    (at 2 1 ∷ at 1 1 ∷ at 1 0 ∷ at 0 0 ∷ [])
    ∷ (at 1 2 ∷ at 1 1 ∷ at 2 1 ∷ at 2 0 ∷ [])
    ∷ (at 2 2 ∷ at 1 2 ∷ at 1 1 ∷ at 0 1 ∷ [])
    ∷ (at 0 2 ∷ at 0 1 ∷ at 1 1 ∷ at 1 0 ∷ [])
    ∷ []

-- `Piece` of Piece.h. `body` is the index that the pointer into `bodies` stands for. The row of the
-- position starts at 0 and only grows, the column can be negative.
pub record Piece : Type 0 where
  pub bodies : List (List Point)
  pub body : ℕ
  pub rotation : ℕ
  pub color : ℕ
  pub pos_x : ℤ
  pub pos_y : ℕ

-- The static variables of `rand`, and the second of the time that `GetTime` gives its first call.
pub record Rng : Type 0 where
  pub previous_value : ℕ
  pub initialized : Bool
  pub second : ℕ

-- The products are of 32 bits; `M` is 1 << 31, as unsigned.
pub rand : Rng → ℕ × Rng
rand r =
    let previous = if r.initialized then r.previous_value else r.second in
    let value = (69069 * previous + 1) % 2 ^ 32 % 2 ^ 31 in
    (value, record r { previous_value = value; initialized = true })

-- The body and the colour of each case of the `switch`. The colours are those of the UEFI
-- specification: light cyan, light blue, green, yellow, light green, magenta and light magenta.
unfoldable pub choose : ℕ → List (List Point) × ℕ
choose zero = (tetrimino_i_body, 0xB)
choose (suc zero) = (tetrimino_j_body, 0x9)
choose (suc (suc zero)) = (tetrimino_l_body, 0x2)
choose (suc (suc (suc zero))) = (tetrimino_o_body, 0xE)
choose (suc (suc (suc (suc zero)))) = (tetrimino_s_body, 0xA)
choose (suc (suc (suc (suc (suc zero))))) = (tetrimino_t_body, 0x5)
choose n = (tetrimino_z_body, 0xD)

pub randomize : Piece → Rng → Piece × Rng
randomize p r =
    let (n, r') = rand r in
    let (bodies, color) = choose (n % 7) in
    (record p { bodies = bodies; color = color; rotation = 0; body = 0 }, r')

pub rotate_cw : Piece → Piece
rotate_cw p = let next = (p.rotation + 1) % 4 in record p { rotation = next; body = next }

pub rotate_ccw : Piece → Piece
rotate_ccw p =
    let next = if p.rotation == 0 then 3 else p.rotation - 1 in
    record p { rotation = next; body = next }

-- `ConstructPiece`: a first call of `rand`, whose value is dropped, and a random body.
pub construct_piece : Rng → Piece × Rng
unfolding randomize
construct_piece r =
    let blank : Piece = record {
      bodies = [];
      body = 0;
      rotation = 0;
      color = 0;
      pos_x = pos 0;
      pos_y = 0;
    } in
    randomize blank (rand r).1

-- `*this->activePiece->body`
abbrev pub blocks : Piece → List Point
blocks p = get_or p.bodies p.body []
