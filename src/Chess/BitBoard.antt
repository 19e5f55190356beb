-- ===== src/Chess/BitBoard.antt =====
-- BitBoard of src/chess/bitboard.h: a set of squares in a `uint64_t`.
pub mod Laws
use fat_fritz.Common.{ℕ, ◌+◌, ◌-◌, bit_and, bit_or, Bool, not, ◌==◌, List, if◌then◌else◌}
use fat_fritz.Bits.{shl64, shr64, not64}
use fat_fritz.Utils.BitIter.{reverse_bytes_in_bytes}
use fat_fritz.Chess.Square.{BoardSquare}

abbrev pub BitBoard : Type 0
BitBoard = ℕ

-- as_board() of a square.
unfoldable pub as_board : BoardSquare → BitBoard
as_board sq = shl64 1 sq

-- set_if(square, cond).
unfoldable pub set_if : BitBoard → BoardSquare → Bool → BitBoard
set_if b sq cond = bit_or b (shl64 (if cond then 1 else 0) sq)

unfoldable pub set : BitBoard → BoardSquare → BitBoard
set b sq = bit_or b (shl64 1 sq)

unfoldable pub reset : BitBoard → BoardSquare → BitBoard
reset b sq = bit_and b (not64 (shl64 1 sq))

unfoldable pub get : BitBoard → BoardSquare → Bool
get b sq = not (bit_and b (shl64 1 sq) == 0)

unfoldable pub empty : BitBoard → Bool
empty b = b == 0

unfoldable pub intersects : BitBoard → BitBoard → Bool
intersects a b = not (bit_and a b == 0)

-- Mirror().
abbrev pub mirror : BitBoard → BitBoard
mirror b = reverse_bytes_in_bytes b

-- operator- of a board and a square.
unfoldable pub without : BitBoard → BoardSquare → BitBoard
without a sq = bit_and a (not64 (as_board sq))

-- operator- of two boards.
unfoldable pub minus : BitBoard → BitBoard → BitBoard
minus a b = bit_and a (not64 b)
