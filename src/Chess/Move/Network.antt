-- ===== src/Chess/Move/Network.antt =====
-- The policy index of a move: kIdxToMove, BuildMoveIndices and Move::as_nn_index of
-- src/chess/bitboard.cc.
pub mod Low
pub mod High
pub mod Index
use fat_fritz.Common.{ℕ, ◌+◌, List, [], ◌∷◌, ◌++◌, map, ◌==◌, if◌then◌else◌, concat_map, get_or}
use fat_fritz.Chess.Move.{
  Move, Promotion, queen, rook, bishop, move, promoting, from, to, set_from, set_to, as_packed_int,
  transform_square,
}
use fat_fritz.Chess.Move.Network.Low.{low_rows}
use fat_fritz.Chess.Move.Network.High.{high_rows}

-- The promotions at the end of the table; a promotion to a knight has none.
abbrev promotion_rows : List (ℕ × ℕ × Promotion)
promotion_rows =
    (48, 56, queen)
    ∷ (48, 56, rook)
    ∷ (48, 56, bishop)
    ∷ (48, 57, queen)
    ∷ (48, 57, rook)
    ∷ (48, 57, bishop)
    ∷ (49, 56, queen)
    ∷ (49, 56, rook)
    ∷ (49, 56, bishop)
    ∷ (49, 57, queen)
    ∷ (49, 57, rook)
    ∷ (49, 57, bishop)
    ∷ (49, 58, queen)
    ∷ (49, 58, rook)
    ∷ (49, 58, bishop)
    ∷ (50, 57, queen)
    ∷ (50, 57, rook)
    ∷ (50, 57, bishop)
    ∷ (50, 58, queen)
    ∷ (50, 58, rook)
    ∷ (50, 58, bishop)
    ∷ (50, 59, queen)
    ∷ (50, 59, rook)
    ∷ (50, 59, bishop)
    ∷ (51, 58, queen)
    ∷ (51, 58, rook)
    ∷ (51, 58, bishop)
    ∷ (51, 59, queen)
    ∷ (51, 59, rook)
    ∷ (51, 59, bishop)
    ∷ (51, 60, queen)
    ∷ (51, 60, rook)
    ∷ (51, 60, bishop)
    ∷ (52, 59, queen)
    ∷ (52, 59, rook)
    ∷ (52, 59, bishop)
    ∷ (52, 60, queen)
    ∷ (52, 60, rook)
    ∷ (52, 60, bishop)
    ∷ (52, 61, queen)
    ∷ (52, 61, rook)
    ∷ (52, 61, bishop)
    ∷ (53, 60, queen)
    ∷ (53, 60, rook)
    ∷ (53, 60, bishop)
    ∷ (53, 61, queen)
    ∷ (53, 61, rook)
    ∷ (53, 61, bishop)
    ∷ (53, 62, queen)
    ∷ (53, 62, rook)
    ∷ (53, 62, bishop)
    ∷ (54, 61, queen)
    ∷ (54, 61, rook)
    ∷ (54, 61, bishop)
    ∷ (54, 62, queen)
    ∷ (54, 62, rook)
    ∷ (54, 62, bishop)
    ∷ (54, 63, queen)
    ∷ (54, 63, rook)
    ∷ (54, 63, bishop)
    ∷ (55, 62, queen)
    ∷ (55, 62, rook)
    ∷ (55, 62, bishop)
    ∷ (55, 63, queen)
    ∷ (55, 63, rook)
    ∷ (55, 63, bishop)
    ∷ []

abbrev row_moves : ℕ × List ℕ → List Move
row_moves (source, destinations) = map (move source) destinations

abbrev promotion_move : ℕ × ℕ × Promotion → Move
promotion_move (source, destination, p) = promoting source destination p

-- The moves that promote nothing, which come first.
unfoldable pub plain_moves : List Move
unfolding concat_map
plain_moves = concat_map row_moves low_rows ++ concat_map row_moves high_rows

unfoldable pub promotion_moves : List Move
promotion_moves = map promotion_move promotion_rows

-- kIdxToMove.
unfoldable pub idx_to_move : List Move
idx_to_move = plain_moves ++ promotion_moves

-- BuildMoveIndices(): the vector as a function, 0 where the loop stores nothing.
unfoldable pub build_move_indices : List Move → ℕ → (ℕ → ℕ) → ℕ → ℕ
build_move_indices [] i res = res
build_move_indices (m ∷ ms) i res =
    let packed = as_packed_int m in
    build_move_indices ms (i + 1) (λ k. if packed == k then i else res k)

-- kMoveToIdx.
unfoldable pub move_to_idx : ℕ → ℕ
move_to_idx packed = build_move_indices idx_to_move 0 (λ _. 0) packed

-- as_nn_index(transform).
unfoldable pub as_nn_index : Move → ℕ → ℕ
as_nn_index m transform =
    if transform == 0
    then move_to_idx (as_packed_int m)
    else move_to_idx (
        as_packed_int (
          set_from (set_to m (transform_square (to m) transform))
            (transform_square (from m) transform)))
