-- ===== src/Tetris.antt =====
-- The game of QSD8250Pkg/Application/TetrisApp.
pub mod Piece
pub mod Board
pub mod Core
mod Tests
