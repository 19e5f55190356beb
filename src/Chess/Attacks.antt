-- ===== src/Chess/Attacks.antt =====
-- Attacks of src/chess/board.cc: rays, the attack tables, and the magic bitboards.
pub mod Tables
pub mod MagicNumbers
pub mod Rays
pub mod Magic
pub mod Sliders
pub mod Bishops
