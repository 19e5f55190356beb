-- ===== src/Chess/Board/Hash.antt =====
-- ChessBoard::Hash of src/chess/board.h.
use fat_fritz.Common.{ℕ, ◌*◌, ◌^◌, ◌%◌, bit_or, if◌then◌else◌, List, [], ◌∷◌}
use fat_fritz.Utils.HashCat.{hash_cat_all}
use fat_fritz.Chess.Board.{ChessBoard}

-- The last word: the kings, the castling rights and the side, in 32 bits.
unfoldable pub state_word : ChessBoard → ℕ
state_word b =
    bit_or
      (bit_or (bit_or (b.our_king * 2 ^ 24 % 2 ^ 32) (b.their_king * 2 ^ 16 % 2 ^ 32))
        (b.castlings.rights * 2 ^ 8 % 2 ^ 32))
      (if b.flipped then 1 else 0)

unfoldable pub hashed_words : ChessBoard → List ℕ
hashed_words b =
    b.our_pieces
    ∷ b.their_pieces
    ∷ b.rooks_and_queens
    ∷ b.bishops_and_queens
    ∷ b.pawns_and_flags
    ∷ state_word b
    ∷ []

-- Hash().
unfoldable pub board_hash : ChessBoard → ℕ
board_hash b = hash_cat_all (hashed_words b)
