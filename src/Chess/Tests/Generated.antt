-- ===== src/Chess/Tests/Generated.antt =====
-- Generated moves on a concrete board.
use fat_fritz.Common.{not, all_below, refl, true, ◌≡◌, arith, Member, inl}
use fat_fritz.Bits.{shl64, shr64, not64, testbit}
use fat_fritz.Utils.BitIter.{iterate_bits, iterate, advance, get_lowest_bit, count_trailing_zeros}
use fat_fritz.Chess.BitBoard
use fat_fritz.Chess.Attacks.Rays.Empty.{leaper_attacks}
use fat_fritz.Chess.BitBoard.{get, minus}
use fat_fritz.Chess.Move.{move, to}
use fat_fritz.Chess.Board.Look.{look}
use fat_fritz.Chess.Board.Valid.{IsPlain}
use fat_fritz.Chess.Board.Attacked.{is_under_attack}
use fat_fritz.Chess.Board.Attackers.{attacks, is_under_attack-attacks}
use fat_fritz.Chess.Board.Moves.{moves_from, knight_moves_from}
use fat_fritz.Chess.Board.Moves.Targets.{reaches}
use fat_fritz.Chess.Board.Moves.Pieces.{moves_from-IsPlain, Member-moves_from}
use fat_fritz.Chess.Attacks.Sliders.{walking}
use fat_fritz.Chess.Tests.Boards.{start_board, start-IsValid}

-- The knight goes from b1 to a3.
knight_goes : Member (move 1 16) (moves_from walking start_board 1)
unfolding moves_from knight_moves_from iterate_bits iterate advance get_lowest_bit
    count_trailing_zeros get minus not64 shl64 shr64 move
knight_goes = inl refl

moves_from-IsPlain_example :
    IsPlain start_board (move 1 16)
    × (move 1 16 ≡ move 1 (to (move 1 16)))
    × (reaches start_board 1 (to (move 1 16)) ≡ true)
unfolding look testbit to move
moves_from-IsPlain_example =
    moves_from-IsPlain walking start_board start-IsValid 1 (omega arith) refl refl (move 1 16)
      (ground arith) (ground arith) knight_goes

Member-moves_from_example : Member (move 1 18) (moves_from walking start_board 1)
unfolding look testbit reaches leaper_attacks BitBoard.set shl64
Member-moves_from_example =
    Member-moves_from walking start_board start-IsValid 1 (omega arith) refl refl 18 (ground arith)
      (omega arith) refl refl

-- Their pawn on b7 and their knight on b8 attack a6.
is_under_attack-attacks_example :
    is_under_attack walking start_board 40
    ≡ not (all_below 64 (λ t. not (attacks start_board t 40)))
is_under_attack-attacks_example =
    is_under_attack-attacks walking start_board start-IsValid 40 (omega arith)
