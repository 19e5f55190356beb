-- ===== src/Chess/Board/Fen/Placing.antt =====
-- How a piece of the first field of a FEN string changes the board.
use fat_fritz.Common.{
  ℕ, ◌<◌, Bool, true, false, not, ◌&&◌, ◌||◌, ◌==◌, if◌then◌else◌, some, ◌≡◌, refl, arith,
}
use fat_fritz.Chess.Square.{BoardSquare}
use fat_fritz.Chess.BitBoard.{set}
use fat_fritz.Chess.BitBoard.Laws.{testbit-set}
use fat_fritz.Chess.Board.{ChessBoard}
use fat_fritz.Chess.Board.Look.{look, Kind, Side, us, them, pawn, knight, bishop, rook, queen, king}
use fat_fritz.Chess.Board.Text.Letters.{piece_letter}
use fat_fritz.Chess.Board.Fen.{put_kind, put_piece}

-- A piece of a side marked on a square, before its kind.
abbrev sided : ChessBoard → BoardSquare → Side → ChessBoard
sided b sq us = record b { our_pieces = set b.our_pieces sq }
sided b sq them = record b { their_pieces = set b.their_pieces sq }

abbrev kinded : ChessBoard → BoardSquare → Side → Kind → ChessBoard
kinded b sq side pawn = record b { pawns_and_flags = set b.pawns_and_flags sq }
kinded b sq side knight = b
kinded b sq side bishop = record b { bishops_and_queens = set b.bishops_and_queens sq }
kinded b sq side rook = record b { rooks_and_queens = set b.rooks_and_queens sq }
kinded b sq side queen = record b {
  rooks_and_queens = set b.rooks_and_queens sq;
  bishops_and_queens = set b.bishops_and_queens sq;
}
kinded b sq us king = record b { our_king = sq }
kinded b sq them king = record b { their_king = sq }

unfoldable pub placed : ChessBoard → BoardSquare → Side → Kind → ChessBoard
placed b sq side k = kinded (sided b sq side) sq side k

pub put_piece-placed :
    (b : ChessBoard) (sq : BoardSquare) (side : Side) (k : Kind)
    → put_piece b sq (piece_letter side k) ≡ some (placed b sq side k)
unfolding put_piece put_kind piece_letter placed
put_piece-placed b sq us pawn = refl
put_piece-placed b sq us knight = refl
put_piece-placed b sq us bishop = refl
put_piece-placed b sq us rook = refl
put_piece-placed b sq us queen = refl
put_piece-placed b sq us king = refl
put_piece-placed b sq them pawn = refl
put_piece-placed b sq them knight = refl
put_piece-placed b sq them bishop = refl
put_piece-placed b sq them rook = refl
put_piece-placed b sq them queen = refl
put_piece-placed b sq them king = refl

-- What a piece of a kind marks in a look.
abbrev pub is_us : Side → Bool
is_us us = true
is_us them = false

abbrev pub marks_rook : Kind → Bool
marks_rook k = elim k [
  | pawn ↦ false
  | knight ↦ false
  | bishop ↦ false
  | rook ↦ true
  | queen ↦ true
  | king ↦ false
]

abbrev pub marks_bishop : Kind → Bool
marks_bishop k = elim k [
  | pawn ↦ false
  | knight ↦ false
  | bishop ↦ true
  | rook ↦ false
  | queen ↦ true
  | king ↦ false
]

abbrev pub marks_pawn : Kind → Bool
marks_pawn k = elim k [
  | pawn ↦ true
  | knight ↦ false
  | bishop ↦ false
  | rook ↦ false
  | queen ↦ false
  | king ↦ false
]

abbrev pub is_king : Kind → Bool
is_king k = elim k [
  | pawn ↦ false
  | knight ↦ false
  | bishop ↦ false
  | rook ↦ false
  | queen ↦ false
  | king ↦ true
]

module _ (b : ChessBoard) (sq s : ℕ) (hq : sq < 64) (hs : s < 64) where
  pub look-placed :
      (side : Side) (k : Kind)
      → look (placed b sq side k) s ≡ record {
        ours = (sq == s && is_us side) || (look b s).ours;
        theirs = (sq == s && not (is_us side)) || (look b s).theirs;
        rook_like = (sq == s && marks_rook k) || (look b s).rook_like;
        bishop_like = (sq == s && marks_bishop k) || (look b s).bishop_like;
        pawn_like = (sq == s && marks_pawn k) || (look b s).pawn_like;
      }
  unfolding look placed
  look-placed side k = ground (
    arith,
    testbit-set b.our_pieces sq s hq hs,
    testbit-set b.their_pieces sq s hq hs,
    testbit-set b.rooks_and_queens sq s hq hs,
    testbit-set b.bishops_and_queens sq s hq hs,
    testbit-set b.pawns_and_flags sq s hq hs,
  )

pub our_king-placed :
    (b : ChessBoard) (sq : ℕ) (side : Side) (k : Kind)
    → (placed b sq side k).our_king ≡ (if is_us side && is_king k then sq else b.our_king)
unfolding placed
our_king-placed b sq side k = ground arith

pub their_king-placed :
    (b : ChessBoard) (sq : ℕ) (side : Side) (k : Kind)
    → (placed b sq side k).their_king ≡ (if not (is_us side) && is_king k then sq else b.their_king)
unfolding placed
their_king-placed b sq side k = ground arith
