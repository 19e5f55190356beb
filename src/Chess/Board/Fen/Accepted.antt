-- ===== src/Chess/Board/Fen/Accepted.antt =====
-- Which texts ChessBoard::SetFromFen accepts.
use fat_fritz.Common.{
  ℕ, ◌+◌, ◌-◌, ◌≤◌, Bool, true, false, not, ◌&&◌, ◌||◌, ◌==◌, leb, if◌then◌else◌, List, [], ◌∷◌,
  Option, none, some, ◌≡◌, refl, ap, ◌∙◌, subst, arith,
}
use fat_fritz.Common.Int.{ℤ}
use fat_fritz.Common.Chars.{is_digit, is_upper}
use fat_fritz.Common.Result.{
  Result, ok, err, OfOk, OfSome, OfOk-if, OfSome-if, OfOk-split, OfOk-unless, OfOk-any, OfOk-weaken,
  OfOk-bind, OfOk-ok, bind-eq-ok, ok-injective,
}
use fat_fritz.Chess.Square.{square_of, row}
use fat_fritz.Chess.BitBoard.{set}
use fat_fritz.Chess.Board.{ChessBoard, clear, mirror}
use fat_fritz.Chess.Board.Fen.{
  put_kind, put_piece, put_pieces, is_dash, is_letter, named_square, castling_symbols,
  read_castlings, read_en_passant, turn_board, board_of_fields, set_from_fen,
}
use fat_fritz.Chess.Board.Fen.Reading.{
  FenError, bad_fen, too_many_columns, wrong_en_passant_rank, bad_side_to_move, Fields, read_fields,
}

-- The strokes between the rows.
unfoldable pub strokes : List ℕ → ℕ
strokes [] = 0
strokes (x ∷ xs) = (if x == b'/' then 1 else 0) + strokes xs

-- A board whose side is that of another, read from at most `r` strokes.
abbrev AfterRows : ℕ → Bool → List ℕ → ChessBoard → Type 0
AfterRows r side xs b = (strokes xs ≤ r) × (b.flipped ≡ side)

flipped-put_kind :
    (b : ChessBoard) (sq c : ℕ) → OfSome (λ b'. b'.flipped ≡ b.flipped) (put_kind b sq c)
unfolding put_kind
flipped-put_kind b sq c = ground arith

flipped-put_piece :
    (b : ChessBoard) (sq c : ℕ) → OfSome (λ b'. b'.flipped ≡ b.flipped) (put_piece b sq c)
unfolding put_piece
flipped-put_piece b sq c =
    OfSome-if (λ b'. b'.flipped ≡ b.flipped) (is_upper c) _ _
      (flipped-put_kind (record b { our_pieces = set b.our_pieces sq }) sq c)
      (flipped-put_kind (record b { their_pieces = set b.their_pieces sq }) sq c)

next_square :
    (P : ChessBoard → Type 0) (side : Bool) (o : Option ChessBoard)
    (next : ChessBoard → Result FenError ChessBoard)
    → OfSome (λ b. b.flipped ≡ side) o
    → ((b : ChessBoard) → b.flipped ≡ side → OfOk P (next b))
    → OfOk P (elim o [ none ↦ err bad_fen | some b ↦ next b ])
next_square P side none next h k = tt
next_square P side (some b) next h k = k b h

rows_of-put_pieces :
    (xs : List ℕ) (r c : ℕ) (b : ChessBoard) → OfOk (AfterRows r b.flipped xs) (put_pieces xs r c b)
unfolding put_pieces strokes
rows_of-put_pieces [] r c b = (omega arith, refl)
rows_of-put_pieces (x ∷ xs) r c b =
    let P = AfterRows r b.flipped (x ∷ xs) in
    OfOk-split P (x == b'/') _ _
      (λ stroke.
        OfOk-split P (r == 0) _ _ (λ _. tt)
          (λ more.
            OfOk-weaken P (AfterRows (r - 1) b.flipped xs) _ (rows_of-put_pieces xs (r - 1) 0 b)
              (λ b' h. (ground (arith, stroke, more, h.0), h.1))))
      (λ other.
        let weaker : (b' : ChessBoard) → AfterRows r b.flipped xs b' → P b' =
          λ b' h. (ground (arith, other, h.0), h.1) in
        OfOk-if P (is_digit x) _ _
          (OfOk-weaken P (AfterRows r b.flipped xs) _ (rows_of-put_pieces xs r (c + (x - b'0')) b)
            weaker)
          (OfOk-unless P (leb 8 c) too_many_columns _ (λ _.
            next_square P b.flipped (put_piece b (square_of r c) x) (put_pieces xs r (c + 1))
              (flipped-put_piece b (square_of r c) x)
              (λ b' e.
                OfOk-weaken P (AfterRows r b'.flipped xs) _ (rows_of-put_pieces xs r (c + 1) b')
                  (λ b2 h. weaker b2 (h.0, h.1 ∙ e))))))

-- Fields that can be read as a position.
pub record IsAccepted (f : Fields) (b : ChessBoard) : Type 0 where
  pub rows_fit : strokes f.board ≤ 7
  pub en_passant_fits :
      (is_dash f.en_passant
        || row (named_square f.en_passant) == 2
        || row (named_square f.en_passant) == 5)
      ≡ true
  pub side_named : (is_letter b'b' b'B' f.who_to_move || is_letter b'w' b'W' f.who_to_move) ≡ true
  pub turned : b.flipped ≡ is_letter b'b' b'B' f.who_to_move

same_side-read_castlings :
    (field : List ℕ) (b : ChessBoard) → OfOk (λ c. c.flipped ≡ b.flipped) (read_castlings field b)
unfolding read_castlings
same_side-read_castlings field b =
    let P : ChessBoard → Type 0 = λ c. c.flipped ≡ b.flipped in
    let symbols =
      castling_symbols b field
        (record { castlings = b.castlings; left_rook = 0; right_rook = 7 }) in
    OfOk-if P (is_dash field) _ _ refl
      (OfOk-bind P (λ _. Unit) symbols _ (OfOk-any symbols) (λ s _. refl))

en_passant-read_en_passant :
    (field : List ℕ) (b : ChessBoard)
    → OfOk
        (λ c.
          (c.flipped ≡ b.flipped)
          × ((is_dash field || row (named_square field) == 2 || row (named_square field) == 5)
              ≡ true))
        (read_en_passant field b)
unfolding read_en_passant
en_passant-read_en_passant field b =
    let sq = named_square field in
    let P : ChessBoard → Type 0 =
      λ c. (c.flipped ≡ b.flipped) × ((is_dash field || row sq == 2 || row sq == 5) ≡ true) in
    OfOk-split P (is_dash field) _ _ (λ dash. (refl, ground (arith, dash)))
      (λ _.
        OfOk-unless P (not (row sq == 2) && not (row sq == 5)) wrong_en_passant_rank _
          (λ off. (refl, ground (arith, off))))

side-turn_board :
    (who : List ℕ) (b : ChessBoard)
    → b.flipped ≡ false
    → OfOk
        (λ c.
          (c.flipped ≡ is_letter b'b' b'B' who)
          × ((is_letter b'b' b'B' who || is_letter b'w' b'W' who) ≡ true))
        (turn_board who b)
unfolding turn_board mirror
side-turn_board who b white =
    let P : ChessBoard → Type 0 = λ c.
      (c.flipped ≡ is_letter b'b' b'B' who)
      × ((is_letter b'b' b'B' who || is_letter b'w' b'W' who) ≡ true) in
    OfOk-split P (is_letter b'b' b'B' who) _ _
      (λ black. (ground (arith, white, black), ground (arith, black)))
      (λ other.
        OfOk-unless P (not (is_letter b'w' b'W' who)) bad_side_to_move _
          (λ named. (ground (arith, white, other), ground (arith, named))))

board_of_fields-IsAccepted : (f : Fields) → OfOk (IsAccepted f) (board_of_fields f)
unfolding board_of_fields
board_of_fields-IsAccepted f =
    let WhiteRows : ChessBoard → Type 0 = λ b. (strokes f.board ≤ 7) × (b.flipped ≡ false) in
    let WithSquare : ChessBoard → Type 0 = λ b.
      WhiteRows b
      × ((is_dash f.en_passant
            || row (named_square f.en_passant) == 2
            || row (named_square f.en_passant) == 5)
          ≡ true) in
    OfOk-bind (IsAccepted f) WithSquare _ _
      (OfOk-bind WithSquare WhiteRows _ _
        (OfOk-bind WhiteRows WhiteRows _ _ (rows_of-put_pieces f.board 7 0 clear) (λ b h.
          OfOk-weaken WhiteRows (λ c. c.flipped ≡ b.flipped) _
            (same_side-read_castlings f.castlings b) (λ c e. (h.0, e ∙ h.1))))
        (λ b h.
          OfOk-weaken WithSquare _ _ (en_passant-read_en_passant f.en_passant b)
            (λ c e. ((h.0, e.0 ∙ h.1), e.1))))
      (λ b h.
        OfOk-weaken (IsAccepted f) _ _ (side-turn_board f.who_to_move b h.0.1) (λ c e. record {
          rows_fit = h.0.0;
          en_passant_fits = h.1;
          side_named = e.1;
          turned = e.0;
        }))

-- When SetFromFen does not throw, the text had readable fields: the first with at most seven
-- strokes between rows, an en passant field that is a dash or names a square of the third or
-- sixth rank, and a side to move that is one of w, W, b and B; and the board is flipped exactly
-- for b and B.
pub set_from_fen-IsAccepted :
    (fen : List ℕ) (b : ChessBoard) (rule50 moves : ℤ)
    → set_from_fen fen ≡ ok (b, rule50, moves)
    → (f : Fields) × (read_fields fen ≡ ok f) × IsAccepted f b
unfolding set_from_fen
set_from_fen-IsAccepted fen b rule50 moves h =
    let (f, read, rest) = bind-eq-ok (read_fields fen) _ _ h in
    let (c, made, same) = bind-eq-ok (board_of_fields f) _ _ rest in
    (
      f,
      read,
      subst (IsAccepted f) (ap (λ r. r.0) (ok-injective _ _ same))
          (OfOk-ok (IsAccepted f) (board_of_fields f) c (board_of_fields-IsAccepted f) made),
    )
