-- ===== src/Chess.antt =====
-- src/chess: squares, bitboards, moves, the board and the game history.
pub mod Square
pub mod BitBoard
pub mod Move
pub mod Attacks
pub mod Castlings
pub mod Board
pub mod Position
pub mod Uci
pub mod Tests
