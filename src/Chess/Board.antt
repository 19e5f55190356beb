-- ===== src/Chess/Board.antt =====
-- ChessBoard of src/chess/board.h and src/chess/board.cc: the state and its views.
pub mod Apply
pub mod Attacked
pub mod Attackers
pub mod Moves
pub mod Legal
pub mod Material
pub mod Look
pub mod Valid
pub mod Mirror
pub mod Hash
pub mod Fen
pub mod Text
use fat_fritz.Common.{ℕ, bit_and, bit_or, Bool, true, false, not}
use fat_fritz.Chess.Square.{BoardSquare}
use fat_fritz.Chess.Square
use fat_fritz.Chess.BitBoard.{BitBoard, minus, without, as_board}
use fat_fritz.Chess.BitBoard
use fat_fritz.Chess.Castlings.{Castlings}
use fat_fritz.Chess.Castlings

-- Rooks and bishops hold the queens too. A pawn on rank 1 marks our pawn of that file on rank 4
-- as takeable en passant, and a pawn on rank 8 theirs on rank 5; those are no pieces.
pub record ChessBoard : Type 0 where
  pub our_pieces : BitBoard
  pub their_pieces : BitBoard
  pub rooks_and_queens : BitBoard
  pub bishops_and_queens : BitBoard
  pub pawns_and_flags : BitBoard
  pub our_king : BoardSquare
  pub their_king : BoardSquare
  pub castlings : Castlings
  pub flipped : Bool

-- kPawnMask.
abbrev pub pawn_mask : BitBoard
pawn_mask = 0x00FFFFFFFFFFFF00

-- Clear(): every byte is 0, the rooks' files too.
abbrev pub clear : ChessBoard
clear = record {
  our_pieces = 0;
  their_pieces = 0;
  rooks_and_queens = 0;
  bishops_and_queens = 0;
  pawns_and_flags = 0;
  our_king = 0;
  their_king = 0;
  castlings = record { queenside_rook = 0; kingside_rook = 0; rights = 0 };
  flipped = false;
}

-- kStartposBoard, the board of kStartposFen.
abbrev pub startpos_board : ChessBoard
startpos_board = record {
  our_pieces = 0xFFFF;
  their_pieces = 0xFFFF000000000000;
  rooks_and_queens = 0x8900000000000089;
  bishops_and_queens = 0x2C0000000000002C;
  pawns_and_flags = 0x00FF00000000FF00;
  our_king = 4;
  their_king = 60;
  castlings = record { queenside_rook = 0; kingside_rook = 7; rights = 15 };
  flipped = false;
}

-- Mirror().
unfoldable pub mirror : ChessBoard → ChessBoard
mirror b = record {
  our_pieces = BitBoard.mirror b.their_pieces;
  their_pieces = BitBoard.mirror b.our_pieces;
  rooks_and_queens = BitBoard.mirror b.rooks_and_queens;
  bishops_and_queens = BitBoard.mirror b.bishops_and_queens;
  pawns_and_flags = BitBoard.mirror b.pawns_and_flags;
  our_king = Square.mirror b.their_king;
  their_king = Square.mirror b.our_king;
  castlings = Castlings.mirror b.castlings;
  flipped = not b.flipped;
}

abbrev pub occupied : ChessBoard → BitBoard
occupied b = bit_or b.our_pieces b.their_pieces

abbrev pub pawns : ChessBoard → BitBoard
pawns b = bit_and b.pawns_and_flags pawn_mask

abbrev pub en_passant : ChessBoard → BitBoard
en_passant b = minus b.pawns_and_flags pawn_mask

abbrev pub bishops : ChessBoard → BitBoard
bishops b = minus b.bishops_and_queens b.rooks_and_queens

abbrev pub rooks : ChessBoard → BitBoard
rooks b = minus b.rooks_and_queens b.bishops_and_queens

abbrev pub queens : ChessBoard → BitBoard
queens b = bit_and b.rooks_and_queens b.bishops_and_queens

abbrev pub knights : ChessBoard → BitBoard
knights b =
    minus
      (minus (without (without (minus (occupied b) (pawns b)) b.our_king) b.their_king)
        b.rooks_and_queens)
      b.bishops_and_queens

abbrev pub kings : ChessBoard → BitBoard
kings b = bit_or (as_board b.our_king) (as_board b.their_king)
