-- ===== src/Chess/Tests/Moves.antt =====
-- Moves, and their effect on concrete boards.
use fat_fritz.Common.{false, some, ◌≡◌, refl, arith}
use fat_fritz.Bits.{testbit}
use fat_fritz.Chess.Board.Look.{us, kind_at, kind_of, look}
use fat_fritz.Chess.Board.Look
use fat_fritz.Chess.Board.Text.{square_letter}
use fat_fritz.Chess.Board.Text.Letters.{piece_letter, square_letter-piece_at}
use fat_fritz.Chess.Move.Network.{idx_to_move, as_nn_index}
use fat_fritz.Chess.Move.Network.Index.{as_nn_index-idx_to_move}
use fat_fritz.Common.{length, get_or}
use fat_fritz.Utils.BitIter.Transforms.{flip_row}
use fat_fritz.Chess.Board.Mirror.{swap_piece, piece_at-mirror}
use fat_fritz.Chess.Move.{move, from, knight, as_string, of_string}
use fat_fritz.Chess.Move.Fields.{SetsOnly, setters-SetsOnly}
use fat_fritz.Chess.Move.Text.{of_string-as_string}
use fat_fritz.Chess.Board.{mirror}
use fat_fritz.Chess.Board.Look.{piece_at}
use fat_fritz.Chess.Board.Valid.{IsValid}
use fat_fritz.Chess.Board.Mirror.{mirror_twice, mirror-IsValid}
use fat_fritz.Chess.Board.Apply.{apply_move}
use fat_fritz.Chess.Board.Apply.Castle.{piece_castled}
use fat_fritz.Chess.Board.Apply.Moved.{piece_after}
use fat_fritz.Chess.Board.Apply.Rules.{apply_move-moves, apply_move-castles}
use fat_fritz.Chess.Tests.Boards.{
  start_board, castling_board, start-IsValid, castling-IsValid, start-IsSettled, double_step,
  double_step-IsPlain, castling_move, castling_here, castling-CanCastle,
}

apply_move-moves_example :
    piece_at (apply_move start_board double_step).0 28 ≡ piece_after start_board double_step 28
unfolding from move
apply_move-moves_example =
    apply_move-moves start_board double_step start-IsValid double_step-IsPlain
      (λ h. ground (arith, h)) 28 (omega arith)

apply_move-castles_example :
    (piece_at (apply_move castling_board castling_move).0 6 ≡ piece_castled castling_board 6 7 5 6)
    × ((apply_move castling_board castling_move).1 ≡ false)
unfolding from move
apply_move-castles_example =
    apply_move-castles castling_board castling_move 6 7 5 castling-IsValid refl castling_here
      castling-CanCastle 6 (omega arith)

mirror_twice_example : mirror (mirror start_board) ≡ start_board
mirror_twice_example =
    mirror_twice start_board start-IsValid.words (omega arith) (omega arith) (omega arith)

mirror-IsValid_example : IsValid (mirror start_board)
mirror-IsValid_example = mirror-IsValid start_board start-IsSettled

setters-SetsOnly_example : SetsOnly 0x130C 63 knight
setters-SetsOnly_example = setters-SetsOnly 0x130C 63 knight (omega arith) (omega arith)

of_string-as_string_example : of_string (as_string 796) false ≡ some 796
of_string-as_string_example = of_string-as_string 796 (omega arith) (omega arith)

as_nn_index-idx_to_move_example :
    (length idx_to_move ≡ 1858) × (as_nn_index (get_or idx_to_move 1857 0) 0 ≡ 1857)
as_nn_index-idx_to_move_example = as_nn_index-idx_to_move 1857 (omega arith)

square_letter-piece_at_example : square_letter start_board 0 6 ≡ piece_letter us Look.knight
unfolding piece_at kind_at kind_of look testbit
square_letter-piece_at_example =
    square_letter-piece_at start_board start-IsValid 0 6 (omega arith) (omega arith) us Look.knight
      refl

piece_at-mirror_example :
    piece_at (mirror start_board) 12 ≡ swap_piece (piece_at start_board (flip_row 12))
piece_at-mirror_example = piece_at-mirror start_board 12 start-IsValid (omega arith)
