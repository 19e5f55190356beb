-- ===== src/Lib.antt =====
-- Verification of the chess core of the engine (lc0 as shipped with Fat Fritz): the rules of the
-- game as the search uses them, and the input that the networks get of a position. Everything above
-- (search, networks, caches, protocols) plays moves and asks for evaluations through this code.
--
-- The parts, and the files that model them:
-- - src/utils/bititer.h: Utils/BitIter (count_trailing_zeros and get_lowest_bit for GetLowestBit,
--   advance and iterate for BitIterator, iterate_bits for IterateBits, and the three transforms).
--   Utils/BitIter/Stages and Utils/BitIter/Transforms say where the transforms move each bit,
--   Utils/BitIter/Iterate what a loop over the bits visits.
-- - src/utils/hashcat.h: Utils/HashCat.
-- - src/utils/cache.h: Utils/Cache (LruCache: insert, lookup_and_pin, unpin, set_capacity and the
--   others under their names, evict_item and shrink_to_capacity below them). The items are numbered
--   by their addresses, and `items` is the memory; the queue, the evicted items and the chains of the
--   table, linked lists in the source, are lists of addresses. Utils/Cache/Valid has the invariant,
--   Utils/Cache/Contents the abstract view, the list of keys and values.
-- - src/chess/bitboard.h and src/chess/bitboard.cc: Chess/Square (BoardSquare, the number 8 * row +
--   column), Chess/BitBoard (a set of squares in a uint64_t), Chess/Move (the 16 bits of a move, its
--   text, Transform), Chess/Move/Network (kIdxToMove in Low and High, as_nn_index).
-- - src/chess/board.cc, the tables: Chess/Attacks/Tables and Chess/Attacks/MagicNumbers;
--   BuildAttacksTable and the lookups: Chess/Attacks/Rays and Chess/Attacks/Magic.
--   Chess/Attacks/Sliders is the interface between them and the board: a record of the two lookups
--   with the law that they are the rays, filled by walking the rays and by the magic bitboards.
-- - src/chess/board.h and src/chess/board.cc, the board: Chess/Board (ChessBoard, Mirror),
--   Chess/Castlings, Chess/Board/Apply (ApplyMove, in the stages of its body), Chess/Board/Attacked
--   (IsUnderAttack), Chess/Board/Moves (GeneratePseudolegalMoves), Chess/Board/Legal
--   (GenerateKingAttackInfo, IsLegalMove, GenerateLegalMoves, the spellings of castling),
--   Chess/Board/Material (HasMatingMaterial, counts), Chess/Board/Hash, Chess/Board/Text,
--   Chess/Board/Fen (SetFromFen: its fields in Reading, which reads them off a string stream, the
--   model of which is Common/Stream).
-- - src/chess/position.h and src/chess/position.cc: Chess/Position (Position, PositionHistory,
--   ComputeGameResult), Chess/Position/Hash.
-- - src/chess/uciloop.cc: Chess/Uci (ParseCommand).
-- - src/mcts/node.h and src/mcts/node.cc: Mcts/Edge (Edge; a float is the number of its 32 bits).
-- - src/neural/encoder.h, src/neural/encoder.cc and InputPlane of src/neural/network.h:
--   Neural/Encoder (EncodePositionForNN: history_boards for the loop over the history, board_planes
--   for its body, castling_planes, aux_planes, encoded and encode_position for the whole),
--   Neural/Encoder/Canonical (ChooseTransform, CompareTransposing, the transform of a plane). The
--   numbers of the input formats stand in a generated file, so they are a parameter, InputFormats. A
--   plane's value is a float in the source; PlaneValue has the three forms that it takes.
-- - src/neural/cache.h and src/neural/cache.cc: Neural/Cache (CachingComputation, over Utils/Cache).
--   The network is a parameter, Network, whose answers are functions of the inputs of the batch; the
--   inputs and the floating point values are of any type.
--
-- How the state corresponds. A ChessBoard is the record of the fields of the class, always from
-- the side to move: a call that changes the object takes a board and returns one. Chess/Board/Look
-- reads a board square by square, and piece_at gives the abstract view, the piece on each square.
-- Chess/Board/Valid has the well-formedness of a board before a move (IsValid) and between
-- ApplyMove and Mirror (IsSettled), and the shape of an ordinary move (IsPlain).
-- Chess/Board/Apply/Moved states the rules for an ordinary move (piece_after),
-- Chess/Board/Apply/Castle those for castling (piece_castled), Chess/Board/Moves/Targets where a
-- rook, bishop, queen or knight goes (reaches), and Chess/Board/Attackers which piece attacks a
-- square (attacks). Chess/Position/Games has games as an inductive relation on positions. A
-- history is the list of its positions, the latest first.
--
-- Numbers are natural numbers with the wrap-around of the source's type written out (shl64 and its
-- kin in Bits/Word, to_u8 in Common/Int). An exception or a read past a vector is none of Option,
-- or err with its text in the readers of FEN strings and of commands (Common/Result). What a
-- constructor leaves unset is an argument. What the source leaves undefined is none where a caller
-- could see it, as PopCacheHit of an empty batch; the 104 history planes are not cut off at the
-- size of the vector, so that an overrun would show. The attack tables are functions of the index,
-- as the bounds of the two arrays that hold them are not modelled.
--
-- Loops and fuel. A ray has a fuel of 8, which meets the edge of the board; a loop over the bits of
-- a word has a fuel of 64, one step for each bit, and Utils/BitIter/Iterate shows it to be enough; the
-- loop of ShrinkToCapacity has as much as the queue has items, and Utils/Cache/Valid shows that to be
-- enough. All other loops are structural.
--
-- The builds. The model follows the portable build: NO_PEXT (magic numbers, not the PEXT
-- instruction) and NO_POPCNT. An assertion has no effect, as in a release build.
--
-- Texts are lists of character codes, and take ASCII characters: the class of any other character
-- depends on the locale, and its sign on the compiler.
--
-- Not modelled: the last line of ChessBoard::DebugString, the search with its tree, the networks, the
-- options, the rest of the protocol loop, self play, the tablebases and the system utilities.
pub mod Common
pub mod Bits
pub mod Utils
pub mod Chess
pub mod Neural
pub mod Mcts
