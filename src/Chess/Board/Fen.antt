-- ===== src/Chess/Board/Fen.antt =====
-- ChessBoard::SetFromFen of src/chess/board.cc.
pub mod Reading
pub mod Placing
pub mod Range
pub mod Symbols
pub mod Accepted
pub mod Printed
pub mod Rows
use fat_fritz.Common.{
  ℕ, zero, suc, ◌+◌, ◌-◌, bit_and, Bool, true, false, not, ◌&&◌, ◌||◌, ◌==◌, ltb, leb,
  if◌then◌else◌, List, [], ◌∷◌, Option, none, some,
}
use fat_fritz.Common.Int.{ℤ}
use fat_fritz.Common.Chars.{is_digit, is_upper, is_lower, to_lower}
use fat_fritz.Common.Result.{Result, ok, err, ◌>>=◌}
use fat_fritz.Chess.Square.{BoardSquare, square_of, of_name, row, col}
use fat_fritz.Chess.BitBoard.{BitBoard, set, get}
use fat_fritz.Chess.Castlings
use fat_fritz.Chess.Castlings.{Castlings}
use fat_fritz.Chess.Board.{ChessBoard, clear, mirror, rooks}
use fat_fritz.Chess.Board.Fen.Reading.{
  FenError, bad_fen, too_many_rows, too_many_columns, no_kingside_rook, no_queenside_rook,
  unexpected_castling_symbol, wrong_en_passant_rank, bad_side_to_move, Fields, read_fields,
}

-- The kind that a letter puts on a square: `none` for a character that is no piece.
unfoldable pub put_kind : ChessBoard → BoardSquare → ℕ → Option ChessBoard
put_kind b sq c =
    if c == b'K'
    then some (record b { our_king = sq })
    else if c == b'k'
    then some (record b { their_king = sq })
    else if c == b'R' || c == b'r'
    then some (record b { rooks_and_queens = set b.rooks_and_queens sq })
    else if c == b'B' || c == b'b'
    then some (record b { bishops_and_queens = set b.bishops_and_queens sq })
    else if c == b'Q' || c == b'q'
    then some (record b {
      rooks_and_queens = set b.rooks_and_queens sq;
      bishops_and_queens = set b.bishops_and_queens sq;
    })
    else if c == b'P' || c == b'p'
    then some (record b { pawns_and_flags = set b.pawns_and_flags sq })
    else if c == b'N' || c == b'n'
    then some b
    else none

-- A piece of either side.
unfoldable pub put_piece : ChessBoard → BoardSquare → ℕ → Option ChessBoard
put_piece b sq c =
    if is_upper c
    then put_kind (record b { our_pieces = set b.our_pieces sq }) sq c
    else put_kind (record b { their_pieces = set b.their_pieces sq }) sq c

-- The loop over the characters of the first field, with the row and column that come next.
unfoldable pub put_pieces : List ℕ → ℕ → ℕ → ChessBoard → Result FenError ChessBoard
put_pieces [] r c b = ok b
put_pieces (x ∷ xs) r c b =
    let next_row = put_pieces xs (r - 1) 0 b in
    let skipped = put_pieces xs r (c + (x - b'0')) b in
    if x == b'/'
    then if r == 0 then err too_many_rows else next_row
    else if is_digit x
    then skipped
    else if leb 8 c
    then err too_many_columns
    else elim (put_piece b (square_of r c) x) [
      | none ↦ err bad_fen
      | some b' ↦ put_pieces xs r (c + 1) b'
    ]

-- The search for the rightmost rook of a rank: the columns from `king_col + left` down to the one
-- after the king. The result is the king's column if there is none.
unfoldable pub rightmost : BitBoard → ℕ → ℕ → ℕ → ℕ
rightmost rooks r king_col zero = king_col
rightmost rooks r king_col (suc left) =
    let further = rightmost rooks r king_col left in
    if get rooks (square_of r (king_col + suc left)) then king_col + suc left else further

-- The search for the leftmost rook of a rank: `left` columns from `c` on.
unfoldable pub leftmost : BitBoard → ℕ → ℕ → ℕ → ℕ
leftmost rooks r c zero = c
leftmost rooks r c (suc left) =
    let further = leftmost rooks r (c + 1) left in if get rooks (square_of r c) then c else further

-- The castling rights and the rooks' columns, while the field is read.
pub record Rights : Type 0 where
  pub castlings : Castlings
  pub left_rook : ℕ
  pub right_rook : ℕ

abbrev pub can_00 : Bool → Castlings → Castlings
can_00 is_black c = if is_black then Castlings.set_they_can_00 c else Castlings.set_we_can_00 c

abbrev pub can_000 : Bool → Castlings → Castlings
can_000 is_black c = if is_black then Castlings.set_they_can_000 c else Castlings.set_we_can_000 c

-- One character of the castling field.
unfoldable pub castling_symbol : ChessBoard → ℕ → Rights → Result FenError Rights
castling_symbol b x s =
    let is_black = is_lower x in
    let king_col = col (if is_black then b.their_king else b.our_king) in
    let c = if is_black then x else to_lower x in
    let side_rooks = bit_and (if is_black then b.their_pieces else b.our_pieces) (rooks b) in
    let rank = if is_black then 7 else 0 in
    let right = rightmost side_rooks rank king_col (7 - king_col) in
    let left = leftmost side_rooks rank 0 king_col in
    let rook_col = c - b'a' in
    if c == b'k'
    then if right == king_col
      then err no_kingside_rook
      else ok (record s { castlings = can_00 is_black s.castlings; right_rook = right })
    else if c == b'q'
    then if left == king_col
      then err no_queenside_rook
      else ok (record s { castlings = can_000 is_black s.castlings; left_rook = left })
    else if leb b'a' c && leb c b'h'
    then if ltb rook_col king_col
      then ok (record s { castlings = can_000 is_black s.castlings; left_rook = rook_col })
      else ok (record s { castlings = can_00 is_black s.castlings; right_rook = rook_col })
    else err unexpected_castling_symbol

unfoldable pub castling_symbols : ChessBoard → List ℕ → Rights → Result FenError Rights
castling_symbols b [] s = ok s
castling_symbols b (x ∷ xs) s = castling_symbol b x s >>= castling_symbols b xs

abbrev pub is_dash : List ℕ → Bool
is_dash (c ∷ []) = c == b'-'
is_dash [] = false
is_dash (_ ∷ _ ∷ _) = false

-- The castling field.
unfoldable pub read_castlings : List ℕ → ChessBoard → Result FenError ChessBoard
read_castlings field b =
    if is_dash field
    then ok b
    else castling_symbols b field
        (record { castlings = b.castlings; left_rook = 0; right_rook = 7 })
      >>= λ s. ok (record b {
        castlings = Castlings.set_rook_positions s.castlings s.left_rook s.right_rook;
      })

-- The square that a text names, with 0 for a second character that is missing.
unfoldable pub named_square : List ℕ → BoardSquare
named_square [] = of_name 0 0 false
named_square (f ∷ []) = of_name f 0 false
named_square (f ∷ r ∷ _) = of_name f r false

-- The en passant field.
unfoldable pub read_en_passant : List ℕ → ChessBoard → Result FenError ChessBoard
read_en_passant field b =
    let sq = named_square field in
    if is_dash field
    then ok b
    else if not (row sq == 2) && not (row sq == 5)
    then err wrong_en_passant_rank
    else ok (record b {
      pawns_and_flags = set b.pawns_and_flags (square_of (if row sq == 2 then 0 else 7) (col sq));
    })

abbrev pub is_letter : ℕ → ℕ → List ℕ → Bool
is_letter lower upper (c ∷ []) = c == lower || c == upper
is_letter lower upper [] = false
is_letter lower upper (_ ∷ _ ∷ _) = false

-- The side to move.
unfoldable pub turn_board : List ℕ → ChessBoard → Result FenError ChessBoard
turn_board who b =
    if is_letter b'b' b'B' who
    then ok (mirror b)
    else if not (is_letter b'w' b'W' who)
    then err bad_side_to_move
    else ok b

-- The board of the fields.
unfoldable pub board_of_fields : Fields → Result FenError ChessBoard
board_of_fields f =
    put_pieces f.board 7 0 clear
    >>= read_castlings f.castlings
    >>= read_en_passant f.en_passant
    >>= turn_board f.who_to_move

-- SetFromFen(fen, rule50_ply, moves): the board and the two numbers.
unfoldable pub set_from_fen : List ℕ → Result FenError (ChessBoard × ℤ × ℤ)
set_from_fen fen =
    read_fields fen >>= λ f. board_of_fields f >>= λ b. ok (b, f.rule50_halfmoves, f.total_moves)
