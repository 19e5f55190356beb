-- ===== src/Chess/Board/Text/Letters.antt =====
-- The letters of ChessBoard::DebugString are those of the pieces.
use fat_fritz.Common.{ℕ, ◌+◌, ◌*◌, ◌<◌, bit_and, true, ◌≡◌, subst, arith, some}
use fat_fritz.Bits.{testbit-bit_and, bit_and-IsU64}
use fat_fritz.Chess.Square.{square_of}
use fat_fritz.Chess.BitBoard.Laws.{get-eq-testbit}
use fat_fritz.Chess.Board.{ChessBoard, pawn_mask}
use fat_fritz.Chess.Board.Look.{
  Kind, Side, us, them, pawn, knight, bishop, rook, queen, king, look, testbit-pawn_mask, kind_of,
  kind_at, piece_at,
}
use fat_fritz.Chess.Board.Valid.{IsValid}
use fat_fritz.Chess.Board.Text.{square_letter, kind_letter}

-- The letter of a piece: a capital for ours.
unfoldable pub piece_letter : Side → Kind → ℕ
piece_letter us pawn = b'P'
piece_letter us knight = b'N'
piece_letter us bishop = b'B'
piece_letter us rook = b'R'
piece_letter us queen = b'Q'
piece_letter us king = b'K'
piece_letter them pawn = b'p'
piece_letter them knight = b'n'
piece_letter them bishop = b'b'
piece_letter them rook = b'r'
piece_letter them queen = b'q'
piece_letter them king = b'k'

module _ (b : ChessBoard) (v : IsValid b) (i j : ℕ) (hi : i < 8) (hj : j < 8) where
  -- A king stands on a square of its own side.
  king_sides :
      (b.our_king ≡ i * 8 + j → (look b (i * 8 + j)).ours ≡ true)
      × (b.their_king ≡ i * 8 + j → (look b (i * 8 + j)).theirs ≡ true)
  king_sides = (
    λ h. subst (λ s. (look b s).ours ≡ true) h v.our_king_ours,
    λ h. subst (λ s. (look b s).theirs ≡ true) h v.their_king_theirs,
  )

  -- On a valid board the letter at a square that holds a piece is the letter of that piece, a
  -- capital for ours.
  pub square_letter-piece_at :
      (side : Side) (k : Kind)
      → piece_at b (i * 8 + j) ≡ some (side, k)
      → square_letter b i j ≡ piece_letter side k
  unfolding square_letter kind_letter piece_letter piece_at kind_at kind_of look
  square_letter-piece_at side k h =
      let same : square_of i j ≡ i * 8 + j = omega arith in
      let small : i * 8 + j < 64 = omega arith in
      rw (same) (
        ground (
          arith,
          h,
          get-eq-testbit b.our_pieces (i * 8 + j) v.words.ours_u64 small,
          get-eq-testbit b.their_pieces (i * 8 + j) v.words.theirs_u64 small,
          get-eq-testbit b.rooks_and_queens (i * 8 + j) v.words.rooks_u64 small,
          get-eq-testbit b.bishops_and_queens (i * 8 + j) v.words.bishops_u64 small,
          get-eq-testbit (bit_and b.pawns_and_flags pawn_mask) (i * 8 + j)
              (bit_and-IsU64 b.pawns_and_flags pawn_mask v.words.pawns_u64) small,
          testbit-bit_and (i * 8 + j) b.pawns_and_flags pawn_mask,
          testbit-pawn_mask (i * 8 + j) small,
          (v.squares (i * 8 + j) small).apart,
          (v.squares (i * 8 + j) small).king_plain,
          king_sides,
        ))
