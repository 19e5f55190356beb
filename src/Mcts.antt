-- ===== src/Mcts.antt =====
-- src/mcts: the search tree.
pub mod Edge
mod Tests
