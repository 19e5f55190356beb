-- ===== src/Chess/Board/Moves.antt =====
-- ChessBoard::GeneratePseudolegalMoves of src/chess/board.cc.
pub mod Targets
pub mod Pieces
use fat_fritz.Common.{
  ℕ, zero, suc, ◌+◌, ◌-◌, min, max, Bool, true, false, not, ◌&&◌, ◌||◌, ◌==◌, ltb, if◌then◌else◌,
  List, [], ◌∷◌, ◌++◌, map, get_or, concat_map,
}
use fat_fritz.Common.Int.{ℤ, pos, negsuc, ◌+ℤ◌}
use fat_fritz.Utils.BitIter.{iterate_bits}
use fat_fritz.Chess.Square.{BoardSquare, square_at, square_of, is_valid, row, col}
use fat_fritz.Chess.BitBoard.{get, minus}
use fat_fritz.Chess.Move.{Move, Promotion, queen, rook, bishop, knight, move, promoting}
use fat_fritz.Chess.Castlings
use fat_fritz.Chess.Attacks.Tables.{Direction, king_moves, knight_attacks}
use fat_fritz.Chess.Attacks.Sliders.{Sliders}
use fat_fritz.Chess.Board.{ChessBoard, occupied, pawns}
use fat_fritz.Chess.Board.Attacked.{is_under_attack}

-- kPromotions.
abbrev pub promotions : List Promotion
promotions = queen ∷ rook ∷ bishop ∷ knight ∷ []

abbrev pub when : Bool → List Move → List Move
when cond ms = if cond then ms else []

module _ (s : Sliders) (b : ChessBoard) where
  -- One step of the king.
  unfoldable pub king_step : BoardSquare → Direction → List Move
  king_step source (dr, dc) =
      let dst_row = pos (row source) +ℤ dr in
      let dst_col = pos (col source) +ℤ dc in
      let destination = square_at dst_row dst_col in
      if not (is_valid dst_row dst_col)
      then []
      else if get b.our_pieces destination
      then []
      else if is_under_attack s b destination
      then []
      else move source destination ∷ []

  -- The lambda `walk_free`: no piece stands between, but for the king and the rook. `count` squares
  -- from `i` on.
  unfoldable pub squares_free : ℕ → ℕ → ℕ → ℕ → Bool
  squares_free zero i rook_file king_file = true
  squares_free (suc count) i rook_file king_file =
      let rest = squares_free count (i + 1) rook_file king_file in
      if i == rook_file || i == king_file
      then rest
      else if get b.our_pieces i || get b.their_pieces i
      then false
      else rest

  unfoldable pub walk_free : ℕ → ℕ → ℕ → ℕ → Bool
  walk_free from to rook_file king_file = squares_free (to + 1 - from) from rook_file king_file

  -- The loop of `range_attacked`, upward or downward, with the steps left to the end.
  unfoldable pub attacked_upward : ℕ → ℕ → Bool
  attacked_upward zero from = false
  attacked_upward (suc steps) from = is_under_attack s b from || attacked_upward steps (from + 1)

  unfoldable pub attacked_downward : ℕ → ℕ → Bool
  attacked_downward zero from = false
  attacked_downward (suc steps) from =
      is_under_attack s b from || attacked_downward steps (from - 1)

  -- The lambda `range_attacked`: `to` is not looked at, unless it is where the king stands.
  unfoldable pub range_attacked : ℕ → ℕ → Bool
  range_attacked from to =
      if from == to
      then is_under_attack s b from
      else if ltb from to
      then attacked_upward (to - from) from
      else attacked_downward (from - to) from

  unfoldable pub castle_queenside : BoardSquare → List Move
  castle_queenside source =
      let king = col source in
      let qrook = b.castlings.queenside_rook in
      when
        (Castlings.we_can_000 b.castlings
          && walk_free (min 2 qrook) (max 3 king) qrook king
          && not (range_attacked king 2))
        (move source (square_of 0 qrook) ∷ [])

  unfoldable pub castle_kingside : BoardSquare → List Move
  castle_kingside source =
      let king = col source in
      let krook = b.castlings.kingside_rook in
      when
        (Castlings.we_can_00 b.castlings
          && walk_free (min 5 king) (max 6 krook) krook king
          && not (range_attacked king 6))
        (move source (square_of 0 krook) ∷ [])

  unfoldable pub king_moves_from : BoardSquare → List Move
  king_moves_from source =
      concat_map (king_step source) king_moves ++ castle_queenside source ++ castle_kingside source

  -- A slider's moves, along the rays of a rook or of a bishop.
  unfoldable pub slider_moves_from : BoardSquare → List Move
  slider_moves_from source =
      when (get b.rooks_and_queens source) (
        map (move source)
          (iterate_bits (minus (s.rook_attacks_from source (occupied b)) b.our_pieces)))
      ++ when (get b.bishops_and_queens source) (
          map (move source)
            (iterate_bits (minus (s.bishop_attacks_from source (occupied b)) b.our_pieces)))

  unfoldable pub pawn_pushes : BoardSquare → List Move
  pawn_pushes source =
      let dst_row = row source + 1 in
      let dst_col = col source in
      let destination = square_of dst_row dst_col in
      let fourth = square_of 3 dst_col in
      when (not (get b.our_pieces destination) && not (get b.their_pieces destination)) (
        if not (dst_row == 7)
        then move source destination
          ∷ when (dst_row == 2 && not (get b.our_pieces fourth) && not (get b.their_pieces fourth))
              (move source fourth ∷ [])
        else map (promoting source destination) promotions)

  -- A capture to the column `dst_col`, which is off the board if it is negative or 8.
  unfoldable pub pawn_capture : BoardSquare → ℤ → List Move
  pawn_capture source (negsuc _) = []
  pawn_capture source (pos dst_col) =
      let dst_row = row source + 1 in
      let destination = square_of dst_row dst_col in
      when (ltb dst_col 8) (
        if get b.their_pieces destination
        then if dst_row == 7
          then map (promoting source destination) promotions
          else move source destination ∷ []
        else when (dst_row == 5 && get b.pawns_and_flags (square_of 7 dst_col))
            (move source destination ∷ []))

  unfoldable pub pawn_moves_from : BoardSquare → List Move
  pawn_moves_from source =
      pawn_pushes source
      ++ pawn_capture source (pos (col source) +ℤ negsuc 0)
      ++ pawn_capture source (pos (col source) +ℤ pos 1)

  unfoldable pub knight_moves_from : BoardSquare → List Move
  knight_moves_from source =
      map (move source) (iterate_bits (minus (get_or knight_attacks source 0) b.our_pieces))

  -- The body of the loop over our pieces.
  unfoldable pub moves_from : BoardSquare → List Move
  moves_from source =
      if source == b.our_king
      then king_moves_from source
      else if get b.rooks_and_queens source || get b.bishops_and_queens source
      then slider_moves_from source
      else if get (pawns b) source
      then pawn_moves_from source
      else knight_moves_from source

  -- GeneratePseudolegalMoves().
  unfoldable pub generate_pseudolegal_moves : List Move
  generate_pseudolegal_moves = concat_map moves_from (iterate_bits b.our_pieces)
