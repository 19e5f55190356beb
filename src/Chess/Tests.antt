-- ===== src/Chess/Tests.antt =====
-- The theorems on the chess modules at concrete inputs.
pub mod Boards
mod Moves
mod Attacks
mod Words
mod Histories
mod Generated
mod Fens
mod Uci
