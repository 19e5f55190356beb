-- ===== src/Chess/Tests/Histories.antt =====
-- Histories of positions.
use fat_fritz.Common.{true, [], ◌∷◌, ◌≡◌, refl, arith, ◌⊎◌}
use fat_fritz.Common.{true}
use fat_fritz.Chess.Position.{did_repeat_since_last_zeroing_move}
use fat_fritz.Chess.Position.Repetitions.{Repeated, did_repeat-Repeated}
use fat_fritz.Chess.Move.{from, move}
use fat_fritz.Chess.Board.Valid.{IsValid}
use fat_fritz.Chess.Position.{Position, after_move, find_repetition, same_board}
use fat_fritz.Chess.Position.Games.{begun, moved, ordinary, reached-IsValid}
use fat_fritz.Chess.Position.Repetitions.{
  Repeats, here, skipped, find_repetition-Repeats, Repeats-find_repetition,
}
use fat_fritz.Chess.Tests.Boards.{start_board, start-IsValid, double_step, double_step-IsPlain}

abbrev start_position : Position
start_position = record {
  us_board = start_board;
  them_board = start_board;
  rule50_ply = 0;
  repetitions = 0;
  cycle_length = 0;
  ply_count = 0;
}

reached-IsValid_example : IsValid (after_move 0 0 start_position double_step).us_board
unfolding from move
reached-IsValid_example =
    reached-IsValid start_position (after_move 0 0 start_position double_step) start-IsValid
      (moved 0 0 double_step begun (ordinary double_step-IsPlain (λ h. ground (arith, h))))

find_repetition-Repeats_example :
    (find_repetition start_board true 1 (start_position ∷ start_position ∷ []) ≡ (0, 0))
    ⊎ Repeats start_board true 1
        (start_position ∷ start_position ∷ [])
        (find_repetition start_board true 1 (start_position ∷ start_position ∷ [])).0
        (find_repetition start_board true 1 (start_position ∷ start_position ∷ [])).1
find_repetition-Repeats_example =
    find_repetition-Repeats start_board true 1 (start_position ∷ start_position ∷ [])

Repeats-find_repetition_example :
    find_repetition start_board true 1 (start_position ∷ start_position ∷ []) ≡ (1, 2)
unfolding same_board
Repeats-find_repetition_example =
    Repeats-find_repetition start_board true 1 1 2 (start_position ∷ start_position ∷ [])
      (skipped start_position (start_position ∷ []) 1 1 2 (here start_position [] 2 refl))

did_repeat-Repeated_example :
    (did_repeat_since_last_zeroing_move (start_position ∷ []) ≡ true
      → Repeated (start_position ∷ []))
    × (Repeated (start_position ∷ [])
        → did_repeat_since_last_zeroing_move (start_position ∷ []) ≡ true)
did_repeat-Repeated_example = did_repeat-Repeated (start_position ∷ [])
