-- ===== src/Chess/Board/Fen/Rows.antt =====
-- The rows of the print read back, from the last rank down.
use fat_fritz.Common.{
  ℕ, zero, suc, ◌+◌, ◌*◌, ◌<◌, true, List, [], ◌∷◌, Option, none, some, ◌≡◌, refl, ap, ◌∙◌, subst,
  arith,
}
use fat_fritz.Common.Result.{ok}
use fat_fritz.Bits.{testbit-zero}
use fat_fritz.Chess.Board.{ChessBoard, clear}
use fat_fritz.Chess.Board.Look.{look, inner, Kind, Side, kind_of, kind_at, piece_at}
use fat_fritz.Chess.Board.Valid.{IsValid}
use fat_fritz.Chess.Board.Fen.{put_pieces}
use fat_fritz.Chess.Board.Fen.Placing.{placed}
use fat_fritz.Chess.Board.Fen.Printed.{
  symbol, print_row, print_rows, covered, shown, Partial, put_pieces-letter, put_pieces-stroke,
  free_square, piece_square,
}

module _ (b : ChessBoard) (v : IsValid b) where
  read_piece :
      (p : ChessBoard) (r c : ℕ) (xs : List ℕ)
      → r < 8
      → c < 8
      → Partial b p r c
      → (o : Option (Side × Kind)) → piece_at b (r * 8 + c) ≡ o
      → (p' : ChessBoard) × (put_pieces (symbol (piece_at b (r * 8 + c)) ∷ xs) r c p
          ≡ put_pieces xs r (c + 1) p')
        × Partial b p' r (c + 1)
  unfolding put_pieces
  read_piece p r c xs hr hc before none e =
      (p, ap (λ o. put_pieces (symbol o ∷ xs) r c p) e, free_square b v p r c hr hc e before)
  read_piece p r c xs hr hc before (some (side, k)) e = (
    placed p (r * 8 + c) side k,
    ap (λ o. put_pieces (symbol o ∷ xs) r c p) e ∙ put_pieces-letter p r c side k xs hr hc,
    piece_square b v p r c side k hr hc e before,
  )

  read_square :
      (p : ChessBoard) (r c : ℕ) (xs : List ℕ)
      → r < 8
      → c < 8
      → Partial b p r c
      → (p' : ChessBoard) × (put_pieces (symbol (piece_at b (r * 8 + c)) ∷ xs) r c p
          ≡ put_pieces xs r (c + 1) p')
        × Partial b p' r (c + 1)
  read_square p r c xs hr hc before = read_piece p r c xs hr hc before (piece_at b (r * 8 + c)) refl

  read_row :
      (n : ℕ) (p : ChessBoard) (r c : ℕ) (later : List ℕ)
      → r < 8
      → c + n ≡ 8
      → Partial b p r c
      → (p' : ChessBoard) × (put_pieces (print_row b r c n later) r c p ≡ put_pieces later r 8 p')
        × Partial b p' r 8
  unfolding print_row
  read_row zero p r c later hr h before = (
    p,
    ap (λ x. put_pieces later r x p) {x = c} {y = 8} (omega arith),
    subst (Partial b p r) {x = c} {y = 8} (omega arith) before,
  )
  read_row (suc n) p r c later hr h before =
      let (p1, e1, half) =
        read_square p r c (print_row b r (c + 1) n later) hr (omega arith) before in
      let (p2, e2, done) = read_row n p1 r (c + 1) later hr (omega arith) half in
      (p2, e1 ∙ e2, done)

  next_row : (p : ChessBoard) (r : ℕ) → Partial b p (suc r) 8 → Partial b p r 0
  unfolding look
  next_row p r before = record {
    looks = λ s hs.
        before.looks s hs
        ∙ ap (λ on. shown on (look b s) (inner s)) {x = covered (suc r) 8 s} {y = covered r 0 s}
            (ground arith);
    our_king = λ q. before.our_king (ground (arith, q));
    their_king = λ q. before.their_king (ground (arith, q));
  }

  read_rows :
      (r : ℕ) (p : ChessBoard)
      → r < 8
      → Partial b p r 0
      → (p' : ChessBoard) × (put_pieces (print_rows b r) r 0 p ≡ ok p') × Partial b p' 0 8
  unfolding print_rows put_pieces
  read_rows zero p hr before =
      let (p1, e1, done) = read_row 8 p 0 0 [] hr refl before in (p1, e1, done)
  read_rows (suc r) p hr before =
      let (p1, e1, half) = read_row 8 p (suc r) 0 (b'/' ∷ print_rows b r) hr refl before in
      let (p2, e2, done) = read_rows r p1 (omega arith) (next_row p1 r half) in
      (p2, e1 ∙ put_pieces-stroke p1 r 8 (print_rows b r) ∙ e2, done)

  clear-Partial : Partial b clear 7 0
  unfolding look
  clear-Partial = record {
    looks = λ s hs. ground (arith, testbit-zero s);
    our_king = λ q. absurd (ground (arith, q, v.our_king_small));
    their_king = λ q. absurd (ground (arith, q, v.their_king_small));
  }

  -- A board that has read all squares shows the same pieces.
  piece_at-Partial :
      (p : ChessBoard) (s : ℕ) → s < 64 → Partial b p 0 8 → piece_at p s ≡ piece_at b s
  unfolding piece_at kind_at kind_of look
  piece_at-Partial p s hs done =
      let all_read : covered 0 8 s ≡ true = ground arith in
      let kings = done.our_king (ground (arith, v.our_king_small)) in
      let their_kings = done.their_king (ground (arith, v.their_king_small)) in
      let same : look p s ≡ shown true (look b s) (inner s) =
        done.looks s hs ∙ ap (λ on. shown on (look b s) (inner s)) all_read in
      rw (kings, their_kings) (ground (arith, same))

  -- The first field of a FEN string printed from a valid board, with the letters of its pieces, 1
  -- for each free square and a stroke between the rows, is read without an error, and the board
  -- that is read shows the same piece, or none, on each square.
  pub put_pieces-print_rows :
      (s : ℕ)
      → s < 64
      → (p : ChessBoard) × (put_pieces (print_rows b 7) 7 0 clear ≡ ok p)
        × (piece_at p s ≡ piece_at b s)
  put_pieces-print_rows s hs =
      let (p, e, done) = read_rows 7 clear (omega arith) clear-Partial in
      (p, e, piece_at-Partial p s hs done)
