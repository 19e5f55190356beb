-- ===== src/Chess/Attacks/Rays.antt =====
-- The two walks along a ray in BuildAttacksTable: over the attacked squares, and over the squares
-- whose occupancy matters.
pub mod Laws
pub mod Reach
pub mod Empty
use fat_fritz.Common.{ℕ, zero, suc, List, [], ◌∷◌, if◌then◌else◌, Bool, true, false}
use fat_fritz.Common.Int.{ℤ, pos, ◌+ℤ◌}
use fat_fritz.Chess.Square.{BoardSquare, square_at, is_valid, row, col}
use fat_fritz.Chess.BitBoard.{BitBoard}
use fat_fritz.Chess.BitBoard
use fat_fritz.Chess.Attacks.Tables.{Direction}

-- The inner `while (true)` that fills `attacks`: up to the edge, or to the first occupied square.
-- A ray has at most 7 squares, so fuel of 8 is enough to meet the edge.
unfoldable pub walk : ℕ → ℤ → ℤ → Direction → BitBoard → BitBoard → BitBoard
walk zero r c d occupancy attacks = attacks
walk (suc fuel) r c (dr, dc) occupancy attacks =
    let dst_row = r +ℤ dr in
    let dst_col = c +ℤ dc in
    let destination = square_at dst_row dst_col in
    let attacks' = BitBoard.set attacks destination in
    let rest = walk fuel dst_row dst_col (dr, dc) occupancy attacks' in
    if is_valid dst_row dst_col
    then if BitBoard.get occupancy destination then attacks' else rest
    else attacks

-- The inner `while (true)` that fills `mask`: the last square before the edge is left out.
unfoldable pub mask_walk : ℕ → ℤ → ℤ → Direction → BitBoard → BitBoard
mask_walk zero r c d mask = mask
mask_walk (suc fuel) r c (dr, dc) mask =
    let dst_row = r +ℤ dr in
    let dst_col = c +ℤ dc in
    let rest =
      mask_walk fuel dst_row dst_col (dr, dc) (BitBoard.set mask (square_at dst_row dst_col)) in
    if is_valid (dst_row +ℤ dr) (dst_col +ℤ dc) then rest else mask

-- The loop over the four directions.
unfoldable pub walk_all : BoardSquare → List Direction → BitBoard → BitBoard → BitBoard
walk_all sq [] occupancy attacks = attacks
walk_all sq (d ∷ ds) occupancy attacks =
    walk_all sq ds occupancy (walk 8 (pos (row sq)) (pos (col sq)) d occupancy attacks)

unfoldable pub mask_walk_all : BoardSquare → List Direction → BitBoard → BitBoard
mask_walk_all sq [] mask = mask
mask_walk_all sq (d ∷ ds) mask =
    mask_walk_all sq ds (mask_walk 8 (pos (row sq)) (pos (col sq)) d mask)

-- What a slider on `sq` attacks, by walking every ray.
unfoldable pub sliding_attacks : List Direction → BoardSquare → BitBoard → BitBoard
sliding_attacks directions sq occupancy = walk_all sq directions occupancy 0

unfoldable pub occupancy_mask : List Direction → BoardSquare → BitBoard
occupancy_mask directions sq = mask_walk_all sq directions 0
