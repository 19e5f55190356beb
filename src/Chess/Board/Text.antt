-- ===== src/Chess/Board/Text.antt =====
-- The DebugString functions of src/chess/bitboard.h, board.h and board.cc.
pub mod Letters
use fat_fritz.Common.{
  ℕ, zero, suc, ◌+◌, ◌-◌, ◌*◌, bit_and, Bool, true, false, not, ◌&&◌, ◌||◌, ◌==◌, if◌then◌else◌,
  List, [], ◌∷◌, ◌++◌, concat_map,
}
use fat_fritz.Chess.Square.{square_of}
use fat_fritz.Chess.BitBoard.{BitBoard, get}
use fat_fritz.Chess.Castlings
use fat_fritz.Chess.Castlings.{Castlings}
use fat_fritz.Chess.Board.{ChessBoard, pawn_mask}

-- The rows or columns of a loop.
abbrev downward : List ℕ
downward = 7 ∷ 6 ∷ 5 ∷ 4 ∷ 3 ∷ 2 ∷ 1 ∷ 0 ∷ []

abbrev upward : List ℕ
upward = 0 ∷ 1 ∷ 2 ∷ 3 ∷ 4 ∷ 5 ∷ 6 ∷ 7 ∷ []

-- BitBoard::DebugString().
unfoldable pub bitboard_text : BitBoard → List ℕ
bitboard_text b =
    concat_map
      (λ i.
        concat_map (λ j. (if get b (square_of i j) then b'#' else b'.') ∷ []) upward ++ b'\n' ∷ [])
      downward

-- Castlings::DebugString(), whose files are those of three bits.
unfoldable pub castlings_text : Castlings → List ℕ
castlings_text c =
    (if c.rights == 0 then b'-' ∷ [] else [])
    ++ (if Castlings.we_can_00 c then b'K' ∷ [] else [])
    ++ (if Castlings.we_can_000 c then b'Q' ∷ [] else [])
    ++ (if Castlings.they_can_00 c then b'k' ∷ [] else [])
    ++ (if Castlings.they_can_000 c then b'q' ∷ [] else [])
    ++ b'[' ∷ (b'a' + c.queenside_rook) ∷ (b'a' + c.kingside_rook) ∷ b']' ∷ []

-- toupper on the letters of the pieces.
abbrev to_upper : ℕ → ℕ
to_upper c = c - 32

-- The letter of the piece on a square, by the words of kinds.
unfoldable pub kind_letter : ChessBoard → ℕ → ℕ
kind_letter b sq =
    if get (bit_and b.pawns_and_flags pawn_mask) sq
    then b'p'
    else if get b.bishops_and_queens sq
    then if get b.rooks_and_queens sq then b'q' else b'b'
    else if get b.rooks_and_queens sq
    then b'r'
    else b'n'

-- What ChessBoard::DebugString writes for the square in row i and column j.
unfoldable pub square_letter : ChessBoard → ℕ → ℕ → ℕ
square_letter b i j =
    let sq = square_of i j in
    if not (get b.our_pieces sq) && not (get b.their_pieces sq)
    then if i == 2 && get b.pawns_and_flags (square_of 0 j)
      then b'*'
      else if i == 5 && get b.pawns_and_flags (square_of 7 j)
      then b'*'
      else b'.'
    else if b.our_king == i * 8 + j
    then b'K'
    else if b.their_king == i * 8 + j
    then b'k'
    else if get b.our_pieces sq
    then to_upper (kind_letter b sq)
    else kind_letter b sq
