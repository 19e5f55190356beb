-- ===== src/Chess/Board/Fen/Reading.antt =====
-- The fields of a FEN string: the first part of ChessBoard::SetFromFen.
use fat_fritz.Common.{ℕ, if◌then◌else◌, List, [], ◌∷◌}
use fat_fritz.Common.Int.{ℤ, pos}
use fat_fritz.Common.Result.{Result, ok, err}
use fat_fritz.Common.Chars.{is_space}
use fat_fritz.Common.Stream.{Stream, open_text, read_word, read_int}

-- The texts of the exceptions.
pub data FenError : Type 0 where
  bad_fen too_many_rows too_many_columns : FenError
  no_kingside_rook no_queenside_rook unexpected_castling_symbol : FenError
  wrong_en_passant_rank bad_side_to_move : FenError

pub record Fields : Type 0 where
  pub board : List ℕ
  pub who_to_move : List ℕ
  pub castlings : List ℕ
  pub en_passant : List ℕ
  pub rule50_halfmoves : ℤ
  pub total_moves : ℤ

-- The text without the spaces at its end.
unfoldable pub trim_end : List ℕ → List ℕ
trim_end [] = []
trim_end (c ∷ cs) = elim (trim_end cs) [
  | [] ↦ if is_space c then [] else c ∷ []
  | x ∷ xs ↦ c ∷ x ∷ xs
]

-- A field that stays as it is at the end of the text.
unfoldable pub next_word : List ℕ → Stream → List ℕ × Stream
next_word old s = if s.eof then (old, s) else read_word old s

unfoldable pub next_int : ℤ → Stream → ℤ × Stream
next_int old s = if s.eof then (old, s) else read_int old s

unfoldable pub read_fields : List ℕ → Result FenError Fields
read_fields fen =
    let (board, s1) = read_word [] (open_text (trim_end fen)) in
    let (who, s2) = next_word (b'w' ∷ []) s1 in
    let (castlings, s3) = next_word (b'-' ∷ []) s2 in
    let (en_passant, s4) = next_word (b'-' ∷ []) s3 in
    let (rule50, s5) = next_int (pos 0) s4 in
    let (moves, s6) = next_int (pos 1) s5 in
    if s6.fail
    then err bad_fen
    else ok (record {
      board = board;
      who_to_move = who;
      castlings = castlings;
      en_passant = en_passant;
      rule50_halfmoves = rule50;
      total_moves = moves;
    })
