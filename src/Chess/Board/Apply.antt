-- ===== src/Chess/Board/Apply.antt =====
-- ChessBoard::ApplyMove of src/chess/board.cc.
pub mod Stages
pub mod Plain
pub mod Looks
pub mod Pieces
pub mod Shown
pub mod Moved
pub mod Kept
pub mod Settled
pub mod Rules
pub mod Castle
use fat_fritz.Common.{
  ℕ, ◌+◌, ◌-◌, bit_and, Bool, true, false, not, ◌&&◌, ◌||◌, ◌==◌, ltb, if◌then◌else◌, Option, none,
  some, get_or,
}
use fat_fritz.Chess.Square.{BoardSquare, square_of, row, col}
use fat_fritz.Chess.BitBoard.{BitBoard, set, set_if, reset, get, intersects}
use fat_fritz.Chess.Move.{
  Move, Promotion, no_promotion, queen, rook, bishop, knight, from, to, promotion,
}
use fat_fritz.Chess.Castlings
use fat_fritz.Chess.Attacks.Tables.{pawn_attacks}
use fat_fritz.Chess.Board.{ChessBoard, pawn_mask, rooks}

-- The lambda `do_castling`.
unfoldable pub do_castling : ChessBoard → BoardSquare → BoardSquare → BoardSquare → ChessBoard
do_castling b king_dst rook_src rook_dst =
    let ours = reset (reset b.our_pieces b.our_king) rook_src in
    record b {
      pawns_and_flags = bit_and b.pawns_and_flags pawn_mask;
      our_pieces = set (set ours king_dst) rook_dst;
      rooks_and_queens = set (reset b.rooks_and_queens rook_src) rook_dst;
      our_king = king_dst;
    }

-- Which castling a king's move is: the king's destination, the rook's square and its destination.
unfoldable pub castling_of : ChessBoard → Move → Option (BoardSquare × BoardSquare × BoardSquare)
castling_of b m =
    if row (from m) == 0 && row (to m) == 0
    then if get (bit_and (rooks b) b.our_pieces) (to m)
      then if ltb (col (from m)) (col (to m)) then some (6, to m, 5) else some (2, to m, 3)
      else if col (from m) == 4 && col (to m) == 6
      then some (6, 7, 5)
      else if col (from m) == 4 && col (to m) == 2
      then some (2, 0, 3)
      else none
    else none

-- The move of our piece, the removal of a captured one, and their castling rights.
unfoldable pub move_and_capture : ChessBoard → Move → ChessBoard
move_and_capture b m =
    let c = b.castlings in
    let c1 = if to m == 56 + c.kingside_rook then Castlings.reset_they_can_00 c else c in
    let c2 = if to m == 56 + c.queenside_rook then Castlings.reset_they_can_000 c1 else c1 in
    record b {
      our_pieces = set (reset b.our_pieces (from m)) (to m);
      their_pieces = reset b.their_pieces (to m);
      rooks_and_queens = reset b.rooks_and_queens (to m);
      bishops_and_queens = reset b.bishops_and_queens (to m);
      pawns_and_flags = reset b.pawns_and_flags (to m);
      castlings = c2;
    }

unfoldable pub is_en_passant : ChessBoard → Move → Bool
is_en_passant b m =
    row (from m) == 4
    && get b.pawns_and_flags (from m)
    && not (col (from m) == col (to m))
    && get b.pawns_and_flags (square_of 7 (col (to m)))

-- An en passant capture, and the removal of the flags.
unfoldable pub take_en_passant : ChessBoard → Move → ChessBoard
take_en_passant b m =
    let taken = square_of 4 (col (to m)) in
    let b1 =
      if is_en_passant b m
      then record b {
        pawns_and_flags = reset b.pawns_and_flags taken;
        their_pieces = reset b.their_pieces taken;
      }
      else b in
    record b1 { pawns_and_flags = bit_and b1.pawns_and_flags pawn_mask }

-- The switch over the promotions.
unfoldable pub promote : ChessBoard → Move → ChessBoard
promote b m =
    let to_rooks = set b.rooks_and_queens (to m) in
    let to_bishops = set b.bishops_and_queens (to m) in
    let b1 : ChessBoard = elim (promotion m) [
      | rook ↦ record b { rooks_and_queens = to_rooks }
      | bishop ↦ record b { bishops_and_queens = to_bishops }
      | queen ↦ record b { rooks_and_queens = to_rooks; bishops_and_queens = to_bishops }
      | _ ↦ b
    ] in
    record b1 { pawns_and_flags = reset b1.pawns_and_flags (from m) }

-- A rook or queen that leaves our first rank takes its castling right along.
unfoldable pub lose_rights : ChessBoard → Move → ChessBoard
lose_rights b m =
    let c = b.castlings in
    let c1 = if col (from m) == c.queenside_rook then Castlings.reset_we_can_000 c else c in
    let c2 = if col (from m) == c.kingside_rook then Castlings.reset_we_can_00 c1 else c1 in
    if row (from m) == 0 && get b.rooks_and_queens (from m) then record b { castlings = c2 } else b

-- An ordinary move carries the kind of the piece along.
unfoldable pub carry_kind : ChessBoard → Move → ChessBoard
carry_kind b m = record b {
  rooks_and_queens =
      reset (set_if b.rooks_and_queens (to m) (get b.rooks_and_queens (from m))) (from m);
  bishops_and_queens =
      reset (set_if b.bishops_and_queens (to m) (get b.bishops_and_queens (from m))) (from m);
  pawns_and_flags =
      reset (set_if b.pawns_and_flags (to m) (get b.pawns_and_flags (from m))) (from m);
}

-- A double step that one of their pawns could take en passant.
unfoldable pub is_takeable_step : ChessBoard → Move → Bool
is_takeable_step b m =
    row (to m) == row (from m) + 2
    && get b.pawns_and_flags (to m)
    && intersects (get_or pawn_attacks (square_of (row (to m) - 1) (col (to m))) 0)
        (bit_and b.their_pieces b.pawns_and_flags)

unfoldable pub flag_double_step : ChessBoard → Move → ChessBoard
flag_double_step b m =
    if is_takeable_step b m
    then record b { pawns_and_flags = set b.pawns_and_flags (square_of 0 (col (to m))) }
    else b

-- A move that is no castling; `captured` says whether a piece stood on the destination.
unfoldable pub apply_plain : ChessBoard → Move → ChessBoard × Bool
apply_plain b m =
    let captured = get b.their_pieces (to m) in
    let b1 = take_en_passant (move_and_capture b m) m in
    let reset_50_moves = captured || get b1.pawns_and_flags (from m) in
    if from m == b.our_king
    then (record b1 { our_king = to m }, reset_50_moves)
    else elim (promotion m) [
      | no_promotion ↦ (flag_double_step (carry_kind (lose_rights b1 m) m) m, reset_50_moves)
      | _ ↦ (promote b1 m, true)
    ]

-- ApplyMove(move): the new board, and whether the 50 moves counter is to be reset.
unfoldable pub apply_move : ChessBoard → Move → ChessBoard × Bool
apply_move b m =
    let no_rights = record b {
      castlings = Castlings.reset_we_can_000 (Castlings.reset_we_can_00 b.castlings);
    } in
    if from m == b.our_king
    then elim (castling_of no_rights m) [
      | some (king_dst, rook_src, rook_dst) ↦
          (do_castling no_rights king_dst rook_src rook_dst, false)
      | none ↦ apply_plain no_rights m
    ]
    else apply_plain b m
