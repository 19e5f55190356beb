-- ===== src/Chess/Board/Material.antt =====
-- HasMatingMaterial of src/chess/board.cc, and the two ways in which src/chess/bitboard.h counts.
use fat_fritz.Common.{
  ℕ, zero, suc, ◌+◌, ◌-◌, ◌*◌, ◌%◌, ◌^◌, bit_and, Bool, true, false, not, ◌&&◌, ◌||◌, ◌==◌, ltb,
  if◌then◌else◌,
}
use fat_fritz.Bits.{shr64}
use fat_fritz.Chess.BitBoard.{BitBoard, empty, intersects}
use fat_fritz.Chess.Board.{ChessBoard, occupied, knights}

-- count(), in the build without the popcnt instruction.
unfoldable pub count : BitBoard → ℕ
count x0 =
    let x1 = (x0 + 2 ^ 64 - bit_and (shr64 x0 1) 0x5555555555555555) % 2 ^ 64 in
    let x2 = (bit_and x1 0x3333333333333333 + bit_and (shr64 x1 2) 0x3333333333333333) % 2 ^ 64 in
    let x3 = bit_and ((x2 + shr64 x2 4) % 2 ^ 64) 0x0F0F0F0F0F0F0F0F in
    shr64 (x3 * 0x0101010101010101 % 2 ^ 64) 56

-- count_few(), in the same build: clear the lowest bit until none is left.
unfoldable pub count_few_loop : ℕ → BitBoard → ℕ
count_few_loop zero x = 0
count_few_loop (suc fuel) x =
    let rest = suc (count_few_loop fuel (bit_and x (x - 1))) in if x == 0 then 0 else rest

unfoldable pub count_few : BitBoard → ℕ
count_few x = count_few_loop 64 x

abbrev pub light_squares : BitBoard
light_squares = 0x55AA55AA55AA55AA

abbrev pub dark_squares : BitBoard
dark_squares = 0xAA55AA55AA55AA55

-- HasMatingMaterial().
unfoldable pub has_mating_material : ChessBoard → Bool
has_mating_material b =
    if not (empty b.rooks_and_queens) || not (empty b.pawns_and_flags)
    then true
    else if ltb (count (occupied b)) 4
    then false
    else if not (empty (knights b))
    then true
    else intersects b.bishops_and_queens light_squares
      && intersects b.bishops_and_queens dark_squares
