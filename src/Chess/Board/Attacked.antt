-- ===== src/Chess/Board/Attacked.antt =====
-- ChessBoard::IsUnderAttack and IsUnderCheck of src/chess/board.cc.
use fat_fritz.Common.{bit_and, Bool, true, false, ◌&&◌, leb, if◌then◌else◌, get_or}
use fat_fritz.Common.Int.{pos, ◌-ℤ◌, abs}
use fat_fritz.Chess.Square.{BoardSquare, row, col}
use fat_fritz.Chess.BitBoard.{BitBoard, intersects, minus, without}
use fat_fritz.Chess.Attacks.Tables.{knight_attacks, pawn_attacks}
use fat_fritz.Chess.Attacks.Sliders.{Sliders}
use fat_fritz.Chess.Board.{ChessBoard, occupied, pawns}

-- Their king stands beside the square, or on it.
unfoldable pub beside_their_king : ChessBoard → BoardSquare → Bool
beside_their_king b sq =
    leb (abs (pos (row b.their_king) -ℤ pos (row sq))) 1
    && leb (abs (pos (col b.their_king) -ℤ pos (col sq))) 1

-- Their pieces that are neither king, slider nor pawn.
abbrev pub their_knights : ChessBoard → BitBoard
their_knights b =
    minus
      (minus (minus (without b.their_pieces b.their_king) b.rooks_and_queens) b.bishops_and_queens)
      (pawns b)

-- IsUnderAttack(square).
unfoldable pub is_under_attack : Sliders → ChessBoard → BoardSquare → Bool
is_under_attack s b sq =
    if beside_their_king b sq
    then true
    else if intersects (s.rook_attacks_from sq (occupied b))
        (bit_and b.their_pieces b.rooks_and_queens)
    then true
    else if intersects (s.bishop_attacks_from sq (occupied b))
        (bit_and b.their_pieces b.bishops_and_queens)
    then true
    else if intersects (get_or pawn_attacks sq 0) (bit_and b.their_pieces b.pawns_and_flags)
    then true
    else if intersects (get_or knight_attacks sq 0) (their_knights b)
    then true
    else false

unfoldable pub is_under_check : Sliders → ChessBoard → Bool
is_under_check s b = is_under_attack s b b.our_king
