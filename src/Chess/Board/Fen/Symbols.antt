-- ===== src/Chess/Board/Fen/Symbols.antt =====
-- The castling rights, the en passant square and the side to move of a FEN string keep a board in range.
use fat_fritz.Common.{
  ℕ, zero, suc, ◌+◌, ◌-◌, ◌<◌, ◌≤◌, bit_or, bit_and, Bool, true, false, not, ◌&&◌, ◌==◌, ltb, leb,
  if◌then◌else◌, List, [], ◌∷◌, ◌≡◌, refl, arith,
}
use fat_fritz.Common.Int.{ℤ}
use fat_fritz.Common.Chars.{is_lower, to_lower}
use fat_fritz.Common.Result.{ok, err, OfOk, OfOk-if, OfOk-unless, OfOk-any, OfOk-bind, OfOk-ok}
use fat_fritz.Bits.{bit_or-lt}
use fat_fritz.Chess.Square.{square_of, row, col}
use fat_fritz.Chess.Castlings
use fat_fritz.Chess.Castlings.{Castlings}
use fat_fritz.Chess.Board.{ChessBoard, clear, rooks}
use fat_fritz.Chess.Board.Fen.{
  rightmost, leftmost, castling_symbol, castling_symbols, read_castlings, is_dash, is_letter,
  named_square, can_00, can_000, read_en_passant, turn_board, board_of_fields, set_from_fen, Rights,
}
use fat_fritz.Chess.Board.Fen.Reading.{
  no_kingside_rook, no_queenside_rook, unexpected_castling_symbol, wrong_en_passant_rank, Fields,
  read_fields,
}
use fat_fritz.Chess.Board.Fen.Range.{
  CastlingsFit, IsInRange, set-IsU64, replaced, mirror-IsInRange, put_pieces-IsInRange,
}

rightmost-bound : (rooks r king_col left : ℕ) → rightmost rooks r king_col left ≤ king_col + left
unfolding rightmost
rightmost-bound rooks r king_col zero = omega arith
rightmost-bound rooks r king_col (suc left) =
    let rest = rightmost-bound rooks r king_col left in ground (arith, rest)

leftmost-bound : (rooks r c left : ℕ) → leftmost rooks r c left ≤ c + left
unfolding leftmost
leftmost-bound rooks r c zero = omega arith
leftmost-bound rooks r c (suc left) =
    let rest = leftmost-bound rooks r (c + 1) left in ground (arith, rest)

record RightsFit (s : Rights) : Type 0 where
  castlings_fit : CastlingsFit s.castlings
  left_fits : s.left_rook < 8
  right_fits : s.right_rook < 8

more_rights : (r k : ℕ) → r < 16 → k < 16 → bit_or r k < 16
more_rights r k h l = bit_or-lt 4 r k h l

castlings_00 : (is_black : Bool) (c : Castlings) → CastlingsFit c → CastlingsFit (can_00 is_black c)
unfolding Castlings.set_we_can_00 Castlings.set_they_can_00
castlings_00 true c v = record {
  queenside_fits = v.queenside_fits;
  kingside_fits = v.kingside_fits;
  rights_fit = bit_or-lt 4 c.rights 4 v.rights_fit (omega arith);
}
castlings_00 false c v = record {
  queenside_fits = v.queenside_fits;
  kingside_fits = v.kingside_fits;
  rights_fit = bit_or-lt 4 c.rights 1 v.rights_fit (omega arith);
}

castlings_000 :
    (is_black : Bool) (c : Castlings) → CastlingsFit c → CastlingsFit (can_000 is_black c)
unfolding Castlings.set_we_can_000 Castlings.set_they_can_000
castlings_000 true c v = record {
  queenside_fits = v.queenside_fits;
  kingside_fits = v.kingside_fits;
  rights_fit = bit_or-lt 4 c.rights 8 v.rights_fit (omega arith);
}
castlings_000 false c v = record {
  queenside_fits = v.queenside_fits;
  kingside_fits = v.kingside_fits;
  rights_fit = bit_or-lt 4 c.rights 2 v.rights_fit (omega arith);
}

-- A right added with the file of its rook.
module _ (is_black : Bool) (s : Rights) (v : RightsFit s) (file : ℕ) (small : file < 8) where
  right_added : RightsFit (record s { castlings = can_00 is_black s.castlings; right_rook = file })
  right_added = record {
    castlings_fit = castlings_00 is_black s.castlings v.castlings_fit;
    left_fits = v.left_fits;
    right_fits = small;
  }

  left_added : RightsFit (record s { castlings = can_000 is_black s.castlings; left_rook = file })
  left_added = record {
    castlings_fit = castlings_000 is_black s.castlings v.castlings_fit;
    left_fits = small;
    right_fits = v.right_fits;
  }

-- A file named by its letter.
file_added :
    (named is_black is_left : Bool) (s : Rights)
    → RightsFit s
    → (file : ℕ) → (named ≡ true → file < 8)
    → OfOk RightsFit (
        if named
        then if is_left
          then ok (record s { castlings = can_000 is_black s.castlings; left_rook = file })
          else ok (record s { castlings = can_00 is_black s.castlings; right_rook = file })
        else err unexpected_castling_symbol)
file_added true is_black true s v file small = left_added is_black s v file (small refl)
file_added true is_black false s v file small = right_added is_black s v file (small refl)
file_added false is_black is_left s v file small = tt

castling_symbol-RightsFit :
    (b : ChessBoard) (x : ℕ) (s : Rights) → RightsFit s → OfOk RightsFit (castling_symbol b x s)
unfolding castling_symbol
castling_symbol-RightsFit b x s v =
    let is_black = is_lower x in
    let king_col : ℕ = col (if is_black then b.their_king else b.our_king) in
    let c = if is_black then x else to_lower x in
    let side_rooks = bit_and (if is_black then b.their_pieces else b.our_pieces) (rooks b) in
    let rank : ℕ = if is_black then 7 else 0 in
    let right : ℕ = rightmost side_rooks rank king_col (7 - king_col) in
    let left : ℕ = leftmost side_rooks rank 0 king_col in
    let small : king_col < 8 = omega arith in
    let right_small : right < 8 =
      omega (arith, rightmost-bound side_rooks rank king_col (7 - king_col)) in
    let left_small : left < 8 = omega (arith, leftmost-bound side_rooks rank 0 king_col) in
    OfOk-if RightsFit (c == b'k') _ _
      (OfOk-unless RightsFit (right == king_col) no_kingside_rook _
        (λ _. right_added is_black s v right right_small))
      (OfOk-if RightsFit (c == b'q') _ _
        (OfOk-unless RightsFit (left == king_col) no_queenside_rook _
          (λ _. left_added is_black s v left left_small))
        (file_added (leb b'a' c && leb c b'h') is_black (ltb (c - b'a') king_col) s v (c - b'a')
          (λ on. ground (arith, on))))

castling_symbols-RightsFit :
    (b : ChessBoard) (xs : List ℕ) (s : Rights)
    → RightsFit s
    → OfOk RightsFit (castling_symbols b xs s)
unfolding castling_symbols
castling_symbols-RightsFit b [] s v = v
castling_symbols-RightsFit b (x ∷ xs) s v =
    OfOk-bind RightsFit RightsFit (castling_symbol b x s) (castling_symbols b xs)
      (castling_symbol-RightsFit b x s v) (castling_symbols-RightsFit b xs)

read_castlings-IsInRange :
    (field : List ℕ) (b : ChessBoard) → IsInRange b → OfOk IsInRange (read_castlings field b)
unfolding read_castlings Castlings.set_rook_positions
read_castlings-IsInRange field b v = OfOk-if IsInRange (is_dash field) _ _ v (
    OfOk-bind IsInRange RightsFit _ _
      (castling_symbols-RightsFit b field _ (record {
        castlings_fit = v.castlings_fit;
        left_fits = omega arith;
        right_fits = omega arith;
      }))
      (λ s k. record {
        words = record {
          ours_u64 = v.words.ours_u64;
          theirs_u64 = v.words.theirs_u64;
          rooks_u64 = v.words.rooks_u64;
          bishops_u64 = v.words.bishops_u64;
          pawns_u64 = v.words.pawns_u64;
        };
        our_king_fits = v.our_king_fits;
        their_king_fits = v.their_king_fits;
        castlings_fit = record {
          queenside_fits = omega arith;
          kingside_fits = omega arith;
          rights_fit = k.castlings_fit.rights_fit;
        };
      }))

read_en_passant-IsInRange :
    (field : List ℕ) (b : ChessBoard) → IsInRange b → OfOk IsInRange (read_en_passant field b)
unfolding read_en_passant
read_en_passant-IsInRange field b v =
    let sq = named_square field in
    OfOk-if IsInRange (is_dash field) _ _ v (
      OfOk-unless IsInRange (not (row sq == 2) && not (row sq == 5)) wrong_en_passant_rank _ (λ _.
        replaced b 0 v _ _ _ _ _ v.words.rooks_u64 v.words.bishops_u64
          (set-IsU64 b.pawns_and_flags (square_of (if row sq == 2 then 0 else 7) (col sq))
            v.words.pawns_u64)
          v.our_king_fits v.their_king_fits))

turn_board-IsInRange :
    (who : List ℕ) (b : ChessBoard) → IsInRange b → OfOk IsInRange (turn_board who b)
unfolding turn_board
turn_board-IsInRange who b v =
    OfOk-if IsInRange (is_letter b'b' b'B' who) _ _ (mirror-IsInRange b v)
      (OfOk-if IsInRange (not (is_letter b'w' b'W' who)) _ _ tt v)

clear-IsInRange : IsInRange clear
clear-IsInRange = record {
  words = record {
    ours_u64 = omega arith;
    theirs_u64 = omega arith;
    rooks_u64 = omega arith;
    bishops_u64 = omega arith;
    pawns_u64 = omega arith;
  };
  our_king_fits = omega arith;
  their_king_fits = omega arith;
  castlings_fit = record {
    queenside_fits = omega arith;
    kingside_fits = omega arith;
    rights_fit = omega arith;
  };
}

board_of_fields-IsInRange : (f : Fields) → OfOk IsInRange (board_of_fields f)
unfolding board_of_fields
board_of_fields-IsInRange f =
    OfOk-bind IsInRange IsInRange _ _
      (OfOk-bind IsInRange IsInRange _ _
        (OfOk-bind IsInRange IsInRange _ _
          (put_pieces-IsInRange f.board 7 0 clear (omega arith) clear-IsInRange)
          (read_castlings-IsInRange f.castlings))
        (read_en_passant-IsInRange f.en_passant))
      (turn_board-IsInRange f.who_to_move)

-- When SetFromFen does not throw, the numbers of the board fit their fields, whatever the text:
-- the five words have 64 bits, both kings are on one of the 64 squares, the rooks' files are
-- below 8 and the castling rights below 16.
pub set_from_fen-IsInRange :
    (fen : List ℕ) (b : ChessBoard) (rule50 moves : ℤ)
    → set_from_fen fen ≡ ok (b, rule50, moves)
    → IsInRange b
unfolding set_from_fen
set_from_fen-IsInRange fen b rule50 moves h =
    OfOk-ok (λ r. IsInRange r.0) (set_from_fen fen) (b, rule50, moves)
      (OfOk-bind (λ r. IsInRange r.0) (λ _. Unit) (read_fields fen) _ (OfOk-any (read_fields fen))
        (λ f _.
          OfOk-bind (λ r. IsInRange r.0) IsInRange (board_of_fields f) _
            (board_of_fields-IsInRange f) (λ c v. v)))
      h
