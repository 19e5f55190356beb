-- ===== src/Utils.antt =====
-- The utilities of src/utils that the chess code stands on.
pub mod BitIter
pub mod HashCat
pub mod Cache
mod Tests
