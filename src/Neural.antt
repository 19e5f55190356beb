-- ===== src/Neural.antt =====
-- src/neural: the input of the network.
pub mod Encoder
pub mod Cache
mod Tests
