-- ===== src/Bits.antt =====
-- Binary digits of native numbers, and 64-bit words: the arithmetic that `uint64_t` code uses.
mod Step
mod Digits
mod Word
mod Fields
pub use Step.*
unfoldable pub use Digits.*
pub use Fields.*
unfoldable pub use Word.*
