-- ===== src/Chess/Board/Legal/Spellings.antt =====
-- The two spellings of castling: GetLegacyMove, GetModernMove and IsSameMove.
use fat_fritz.Common.{true, false, ◌≡◌, arith}
use fat_fritz.Chess.BitBoard.{get}
use fat_fritz.Chess.Move.{Move, move, from, to}
use fat_fritz.Chess.Board.{ChessBoard}
use fat_fritz.Chess.Board.Legal.{is_same_move, get_legacy_move, get_modern_move}

-- IsSameMove is symmetric in the two moves, whatever the board.
pub is_same_move_comm :
    (b : ChessBoard) (m1 m2 : Move) → is_same_move b m1 m2 ≡ is_same_move b m2 m1
unfolding is_same_move
is_same_move_comm b m1 m2 = ground arith

-- A move and its legacy spelling are the same move, whatever the board.
pub legacy-same : (b : ChessBoard) (m : Move) → is_same_move b m (get_legacy_move b m) ≡ true
unfolding is_same_move get_legacy_move from to move
legacy-same b m = ground arith

-- With our king on e1 and neither c1 nor g1 ours, a move of the king onto a square of ours comes
-- back from its legacy spelling.
pub modern-legacy :
    (b : ChessBoard) (m : Move)
    → b.our_king ≡ 4
    → from m ≡ 4
    → get b.our_pieces (to m) ≡ true
    → get b.our_pieces 6 ≡ false
    → get b.our_pieces 2 ≡ false
    → get_modern_move b (get_legacy_move b m) ≡ m
unfolding get_legacy_move get_modern_move from to move
modern-legacy b m hk hf ho h6 h2 = ground arith
