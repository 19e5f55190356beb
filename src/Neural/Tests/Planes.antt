-- ===== src/Neural/Tests/Planes.antt =====
-- Planes of the starting position.
use fat_fritz.Common.{true, not, ◌==◌, List, [], ◌∷◌, some, get_or, ◌≡◌, ◌↔◌, refl, arith}
use fat_fritz.Bits.{testbit}
use fat_fritz.Chess.Castlings
use fat_fritz.Chess.Castlings.{Castlings}
use fat_fritz.Chess.Move.{transform_square}
use fat_fritz.Chess.Board.{ChessBoard, pawns}
use fat_fritz.Chess.Board.Look.{us, knight, look, piece_at}
use fat_fritz.Chess.Board.Valid.{IsValid}
use fat_fritz.Chess.Position.{Position}
use fat_fritz.Chess.Tests.Boards.{start_board, start-IsValid}
use fat_fritz.Neural.Encoder.{
  InputFormats, InputPlane, plane_of, always, castling_planes, encoded, encode_position,
  transform_for_position,
}
use fat_fritz.Neural.Encoder.Canonical.{choose_transform, transform_word}
use fat_fritz.Neural.Encoder.Canonical.Words.{testbit-transform_word}
use fat_fritz.Neural.Encoder.Canonical.King.{is_canonical_square, transform_square-choose_transform}
use fat_fritz.Neural.Encoder.Size.{past_boards}
use fat_fritz.Neural.Encoder.Layout.{IsLaidOut, encode_position-IsLaidOut}
use fat_fritz.Neural.Encoder.Pieces.{plane_index}
use fat_fritz.Neural.Encoder.Current.{encode_position-pieces}

abbrev formats : InputFormats
formats = record {
  classical_112_plane = 1;
  with_castling_plane = 2;
  with_canonicalization = 3;
  with_hectoplies = 4;
  with_armageddon = 132;
}

-- The starting position without castling rights.
abbrev bare_board : ChessBoard
bare_board = record start_board {
  castlings = record { queenside_rook = 0; kingside_rook = 7; rights = 0 };
}

bare-IsValid : IsValid bare_board
unfolding look
bare-IsValid = record {
  words = record {
    ours_u64 = start-IsValid.words.ours_u64;
    theirs_u64 = start-IsValid.words.theirs_u64;
    rooks_u64 = start-IsValid.words.rooks_u64;
    bishops_u64 = start-IsValid.words.bishops_u64;
    pawns_u64 = start-IsValid.words.pawns_u64;
  };
  our_king_small = start-IsValid.our_king_small;
  their_king_small = start-IsValid.their_king_small;
  our_king_ours = start-IsValid.our_king_ours;
  their_king_theirs = start-IsValid.their_king_theirs;
  squares = start-IsValid.squares;
  their_flags = start-IsValid.their_flags;
}

abbrev bare_position : Position
bare_position = record {
  us_board = bare_board;
  them_board = bare_board;
  rule50_ply = 0;
  repetitions = 0;
  cycle_length = 0;
  ply_count = 0;
}

testbit-transform_word_example :
    testbit (transform_word 3 256) (transform_square 8 3) ≡ testbit 256 8
testbit-transform_word_example = testbit-transform_word 3 256 8 (omega arith)

transform_square-choose_transform_example :
    is_canonical_square
      (transform_square bare_board.our_king (choose_transform bare_board))
      (not (pawns bare_board == 0))
    ≡ true
unfolding Castlings.no_legal_castle
transform_square-choose_transform_example =
    transform_square-choose_transform bare_board bare-IsValid refl

-- The planes of the classical format, and those of castling.
abbrev castling_four : List InputPlane
castling_four = plane_of 0 ∷ plane_of 0 ∷ plane_of 0 ∷ plane_of 0 ∷ []

abbrev classical : List InputPlane
classical = (encoded formats 1 bare_position [] 8 always castling_four).0

classical_encoded : encode_position formats 1 bare_position [] 8 always ≡ some (classical, 0)
unfolding encode_position encoded castling_planes transform_for_position Castlings.we_can_000
    Castlings.we_can_00 Castlings.they_can_000 Castlings.they_can_00
classical_encoded = refl

encode_position-IsLaidOut_example :
    IsLaidOut formats 1 bare_position
      (past_boards formats 1 bare_position [] 8 always)
      castling_four
      classical
      0
unfolding castling_planes Castlings.we_can_000 Castlings.we_can_00 Castlings.they_can_000
    Castlings.they_can_00
encode_position-IsLaidOut_example =
    encode_position-IsLaidOut formats 1 bare_position [] 8 always castling_four classical 0 refl
      classical_encoded

encode_position-pieces_example :
    (testbit (get_or classical (plane_index us knight) (plane_of 0)).mask (transform_square 6 0)
      ≡ true)
    ↔ (piece_at bare_board 6 ≡ some (us, knight))
encode_position-pieces_example =
    encode_position-pieces formats 1 bare_position [] 8 always classical 0 6 us knight bare-IsValid
      (omega arith) (omega arith) classical_encoded
