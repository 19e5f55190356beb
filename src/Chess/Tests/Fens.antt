-- ===== src/Chess/Tests/Fens.antt =====
-- FEN strings on concrete texts.
use Prim.Native.Char.{code}
use Prim.Native.String.{String}
use fat_fritz.Common.{ℕ, arith, List, [], ◌∷◌, ◌≡◌, refl}
use fat_fritz.Common.Int.{pos}
use fat_fritz.Common.Result.{ok}
use fat_fritz.Common.Stream.{drop_spaces, read_word, read_int, take_word, take_digits, take_sign}
use fat_fritz.Bits.{shl64, not64}
use fat_fritz.Chess.Square.{of_name}
use fat_fritz.Chess.BitBoard.{set, get, minus}
use fat_fritz.Chess.Castlings
use fat_fritz.Chess.Board.{ChessBoard, clear}
use fat_fritz.Chess.Board.Fen.{
  set_from_fen, board_of_fields, put_pieces, put_piece, put_kind, read_castlings, castling_symbols,
  castling_symbol, rightmost, leftmost, read_en_passant, named_square, turn_board,
}
use fat_fritz.Chess.Board.Fen.Reading.{read_fields, trim_end, next_word, next_int, Fields}
use fat_fritz.Chess.Board.Look.{piece_at}
use fat_fritz.Chess.Board.Fen.Printed.{print_rows}
use fat_fritz.Chess.Board.Fen.Rows.{put_pieces-print_rows}
use fat_fritz.Chess.Board.Fen.Range.{IsInRange}
use fat_fritz.Chess.Board.Fen.Symbols.{set_from_fen-IsInRange}
use fat_fritz.Chess.Board.Fen.Accepted.{IsAccepted, set_from_fen-IsAccepted}
use fat_fritz.Chess.Tests.Boards.{start_board, start-IsValid}

abbrev codes : String → List ℕ
codes String.[] = []
codes (String.◌∷◌ c s) = code c ∷ codes s

abbrev start_text : List ℕ
start_text = codes "rnbqkbnr/pppppppp/8/8/8/8/PPPPPPPP/RNBQKBNR w KQkq - 0 1"

start_fen : set_from_fen start_text ≡ ok (start_board, pos 0, pos 1)
unfolding set_from_fen board_of_fields put_pieces put_piece put_kind read_castlings castling_symbols
    castling_symbol rightmost leftmost read_en_passant named_square turn_board read_fields trim_end
    next_word next_int drop_spaces read_word read_int take_word take_digits take_sign set get minus
    of_name shl64 not64 Castlings.set_we_can_00 Castlings.set_we_can_000 Castlings.set_they_can_00
    Castlings.set_they_can_000 Castlings.set_rook_positions
start_fen = refl

put_pieces-print_rows_example :
    (p : ChessBoard) × (put_pieces (print_rows start_board 7) 7 0 clear ≡ ok p)
    × (piece_at p 4 ≡ piece_at start_board 4)
put_pieces-print_rows_example = put_pieces-print_rows start_board start-IsValid 4 (omega arith)

set_from_fen-IsInRange_example : IsInRange start_board
set_from_fen-IsInRange_example =
    set_from_fen-IsInRange start_text start_board (pos 0) (pos 1) start_fen

set_from_fen-IsAccepted_example :
    (f : Fields) × (read_fields start_text ≡ ok f) × IsAccepted f start_board
set_from_fen-IsAccepted_example =
    set_from_fen-IsAccepted start_text start_board (pos 0) (pos 1) start_fen
