-- ===== src/Chess/Tests/Boards.antt =====
-- Two concrete boards: the start of the game, and one with a free way to castle on the king's side.
use fat_fritz.Common.{
  ℕ, ◌+◌, Bool, true, false, not, ◌&&◌, ◌||◌, ◌==◌, ◌≡◌, refl, arith, all_below, all_below_sound,
  some,
}
use fat_fritz.Bits.{testbit, not64, shl64}
use fat_fritz.Chess.BitBoard.{get, minus}
use fat_fritz.Chess.Move.{Move, move, from, to, promotion}
use fat_fritz.Chess.Board.{ChessBoard}
use fat_fritz.Chess.Board.Look.{Look, look, inner, piece_at, kind_at, kind_of}
use fat_fritz.Chess.Board.Valid.{IsPlaced, IsValid, IsSettled, IsPlain}
use fat_fritz.Chess.Board.Apply.{castling_of}
use fat_fritz.Chess.Board.Apply.Castle.{CanCastle}

-- The board with our pieces and bishops as given, and everything else as at the start of the game.
abbrev pub start_with : ℕ → ℕ → ChessBoard
start_with ours bishops_too = record {
  our_pieces = ours;
  their_pieces = 0xFFFF000000000000;
  rooks_and_queens = 0x8900000000000089;
  bishops_and_queens = bishops_too;
  pawns_and_flags = 0x00FF00000000FF00;
  our_king = 4;
  their_king = 60;
  castlings = record { queenside_rook = 0; kingside_rook = 7; rights = 15 };
  flipped = false;
}

abbrev pub start_board : ChessBoard
start_board = start_with 0xFFFF 0x2C0000000000002C

-- Without the bishop f1 and the knight g1.
abbrev pub castling_board : ChessBoard
castling_board = start_with 0xFF9F 0x2C0000000000000C

-- IsPlaced as a test.
abbrev is_placed : Look → Bool → Bool → Bool
is_placed l is_inner is_king =
    not (l.ours && l.theirs)
    && not ((l.rook_like || l.bishop_like || l.pawn_like && is_inner) && not (l.ours || l.theirs))
    && not (l.pawn_like && is_inner && (l.rook_like || l.bishop_like))
    && not (is_king && (l.rook_like || l.bishop_like || l.pawn_like && is_inner))

is_placed-IsPlaced : (l : Look) (i k : Bool) → is_placed l i k ≡ true → IsPlaced l i k
is_placed-IsPlaced l i k h = record {
  apart = ground (arith, h);
  placed = ground (arith, h);
  pawn_plain = ground (arith, h);
  king_plain = ground (arith, h);
}

abbrev placed_everywhere : ChessBoard → Bool
placed_everywhere b =
    all_below 64 (λ s. is_placed (look b s) (inner s) (b.our_king == s || b.their_king == s))

start_placed : placed_everywhere start_board ≡ true
unfolding all_below look testbit
start_placed = refl

castling_placed : placed_everywhere castling_board ≡ true
unfolding all_below look testbit
castling_placed = refl

no_flags :
    all_below 8
      (λ c. not (testbit 0x00FF00000000FF00 (56 + c)) && not (testbit 0x00FF00000000FF00 c))
    ≡ true
unfolding all_below testbit
no_flags = refl

pub start-IsValid : IsValid start_board
unfolding look testbit
start-IsValid = record {
  words = record {
    ours_u64 = omega arith;
    theirs_u64 = omega arith;
    rooks_u64 = omega arith;
    bishops_u64 = omega arith;
    pawns_u64 = omega arith;
  };
  our_king_small = omega arith;
  their_king_small = omega arith;
  our_king_ours = refl;
  their_king_theirs = refl;
  squares = λ s hs. is_placed-IsPlaced _ _ _ (all_below_sound 64 _ s start_placed hs);
  their_flags =
      λ c hc h. let none_here = all_below_sound 8 _ c no_flags hc in ground (arith, none_here, h);
}

pub castling-IsValid : IsValid castling_board
unfolding look testbit
castling-IsValid = record {
  words = record {
    ours_u64 = omega arith;
    theirs_u64 = omega arith;
    rooks_u64 = omega arith;
    bishops_u64 = omega arith;
    pawns_u64 = omega arith;
  };
  our_king_small = omega arith;
  their_king_small = omega arith;
  our_king_ours = refl;
  their_king_theirs = refl;
  squares = λ s hs. is_placed-IsPlaced _ _ _ (all_below_sound 64 _ s castling_placed hs);
  their_flags =
      λ c hc h. let none_here = all_below_sound 8 _ c no_flags hc in ground (arith, none_here, h);
}

pub start-IsSettled : IsSettled start_board
unfolding look testbit
start-IsSettled = record {
  words = start-IsValid.words;
  our_king_small = omega arith;
  their_king_small = omega arith;
  our_king_ours = refl;
  their_king_theirs = refl;
  squares = start-IsValid.squares;
  our_flags =
      λ c hc h. let none_here = all_below_sound 8 _ c no_flags hc in ground (arith, none_here, h);
}

-- The move e2e4.
abbrev pub double_step : Move
double_step = move 12 28

pub double_step-IsPlain : IsPlain start_board double_step
unfolding look testbit from to promotion move
double_step-IsPlain = record {
  from_small = omega arith;
  to_small = omega arith;
  ours_moves = refl;
  to_free = refl;
  no_king_taken = ground arith;
  pawn_up = λ h. omega arith;
  pawn_stays = λ h k. omega arith;
  pawn_promotes = λ h. refl;
  pawn_double = λ h k. refl;
}

-- The king on e1 goes to the rook on h1.
abbrev pub castling_move : Move
castling_move = move 4 7

pub castling_here : castling_of castling_board castling_move ≡ some (6, 7, 5)
unfolding castling_of from to move get minus not64 shl64
castling_here = refl

pub castling-CanCastle : CanCastle castling_board 6 7 5
unfolding piece_at kind_at kind_of look testbit
castling-CanCastle = record {
  king_dst_small = omega arith;
  rook_src_small = omega arith;
  rook_dst_small = omega arith;
  dsts_apart = ground arith;
  rook_there = refl;
  king_dst_free = λ h k. refl;
  rook_dst_free = λ h k. refl;
}
