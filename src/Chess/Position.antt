-- ===== src/Chess/Position.antt =====
-- Position, GameResult and PositionHistory of src/chess/position.h and src/chess/position.cc.
pub mod Games
pub mod Repetitions
pub mod History
pub mod Hash
use fat_fritz.Common.{
  ℕ, zero, suc, ◌+◌, ◌-◌, Bool, true, false, not, ◌&&◌, ◌||◌, ◌==◌, ltb, leb, if◌then◌else◌, List,
  [], ◌∷◌, ◌++◌, Option, none, some, length,
}
use fat_fritz.Common.Bools.{bool_eq}
use fat_fritz.Chess.Move.{Move}
use fat_fritz.Chess.Attacks.Sliders.{Sliders}
use fat_fritz.Chess.Castlings.{Castlings}
use fat_fritz.Chess.Board.{ChessBoard, mirror}
use fat_fritz.Chess.Board.Apply.{apply_move}
use fat_fritz.Chess.Board.Attacked.{is_under_check}
use fat_fritz.Chess.Board.Legal.{generate_legal_moves}
use fat_fritz.Chess.Board.Material.{has_mating_material}

-- operator== of ChessBoard. That of Castlings asserts that the rooks' files agree, and compares
-- the rights.
unfoldable pub same_board : ChessBoard → ChessBoard → Bool
same_board a b =
    a.our_pieces == b.our_pieces
    && a.their_pieces == b.their_pieces
    && a.rooks_and_queens == b.rooks_and_queens
    && a.bishops_and_queens == b.bishops_and_queens
    && a.pawns_and_flags == b.pawns_and_flags
    && a.our_king == b.our_king
    && a.their_king == b.their_king
    && a.castlings.rights == b.castlings.rights
    && bool_eq a.flipped b.flipped

-- `cycle_length` is left unset by both constructors, and `repetitions` by the first; what the
-- memory held is an argument.
pub record Position : Type 0 where
  pub us_board : ChessBoard
  pub them_board : ChessBoard
  pub rule50_ply : ℕ
  pub repetitions : ℕ
  pub cycle_length : ℕ
  pub ply_count : ℕ

-- Position(parent, m).
unfoldable pub after_move : ℕ → ℕ → Position → Move → Position
after_move old_repetitions old_cycle parent m =
    let (them, is_zeroing) = apply_move parent.us_board m in
    record {
      us_board = mirror them;
      them_board = them;
      rule50_ply = if is_zeroing then 0 else parent.rule50_ply + 1;
      repetitions = old_repetitions;
      cycle_length = old_cycle;
      ply_count = parent.ply_count + 1;
    }

-- Position(board, rule50_ply, game_ply).
unfoldable pub initial : ℕ → ChessBoard → ℕ → ℕ → Position
initial old_cycle board rule50 game_ply = record {
  us_board = board;
  them_board = mirror board;
  rule50_ply = rule50;
  repetitions = 0;
  cycle_length = old_cycle;
  ply_count = game_ply;
}

-- SetRepetitions(repetitions, cycle_length).
unfoldable pub set_repetitions : Position → ℕ → ℕ → Position
set_repetitions p reps cycle = record p { repetitions = reps; cycle_length = cycle }

abbrev pub is_black_to_move : Position → Bool
is_black_to_move p = p.us_board.flipped

pub data GameResult : Type 0 where
  undecided black_won draw white_won : GameResult

-- operator-: the result from the other side.
unfoldable pub negate : GameResult → GameResult
negate undecided = undecided
negate black_won = white_won
negate draw = draw
negate white_won = black_won

-- A history is the list of its positions, the latest first.
abbrev pub PositionHistory : Type 0
PositionHistory = List Position

-- The loop of ComputeLastMoveRepetitions over the positions two plies apart, the nearest first;
-- `skip` says that a position with the other side to move comes next. `distance` is the number of
-- plies back to the head of the list. The result is the repetitions and the cycle length.
unfoldable pub find_repetition : ChessBoard → Bool → ℕ → List Position → ℕ × ℕ
find_repetition board skip distance [] = (0, 0)
find_repetition board true distance (p ∷ ps) = find_repetition board false (distance + 1) ps
find_repetition board false distance (p ∷ ps) =
    let rest = find_repetition board true (distance + 1) ps in
    if same_board p.us_board board
    then (1 + p.repetitions, distance)
    else if ltb p.rule50_ply 2
    then (0, 0)
    else rest

-- ComputeLastMoveRepetitions(&cycle_length), of a history with a last position.
unfoldable pub compute_last_move_repetitions : Position → List Position → ℕ × ℕ
compute_last_move_repetitions last earlier =
    if ltb last.rule50_ply 4 then (0, 0) else find_repetition last.us_board true 1 earlier

-- Reset(board, rule50_ply, game_ply).
unfoldable pub reset : ℕ → ChessBoard → ℕ → ℕ → PositionHistory
reset old_cycle board rule50 game_ply = initial old_cycle board rule50 game_ply ∷ []

-- Append(m). On an empty history the code reads past the vector: `none`.
unfoldable pub append : ℕ → ℕ → PositionHistory → Move → Option PositionHistory
append old_repetitions old_cycle [] m = none
append old_repetitions old_cycle (last ∷ earlier) m =
    let p = after_move old_repetitions old_cycle last m in
    let (reps, cycle) = compute_last_move_repetitions p (last ∷ earlier) in
    some (set_repetitions p reps cycle ∷ last ∷ earlier)

-- Pop(), which wants a position to pop.
unfoldable pub pop : PositionHistory → Option PositionHistory
pop [] = none
pop (p ∷ ps) = some ps

-- Trim(size): the first `size` positions of the game. The code wants at least that many.
unfoldable pub trim : ℕ → PositionHistory → PositionHistory
trim size [] = []
trim size (p ∷ ps) = let rest = trim size ps in if ltb size (length (p ∷ ps)) then rest else p ∷ ps

-- DidRepeatSinceLastZeroingMove().
unfoldable pub did_repeat_since_last_zeroing_move : PositionHistory → Bool
did_repeat_since_last_zeroing_move [] = false
did_repeat_since_last_zeroing_move (p ∷ ps) =
    let rest = did_repeat_since_last_zeroing_move ps in
    if ltb 0 p.repetitions then true else if p.rule50_ply == 0 then false else rest

-- ComputeGameResult(), of the last position.
unfoldable pub compute_game_result : Sliders → Position → GameResult
compute_game_result s last = elim (generate_legal_moves s last.us_board) [
  | [] ↦
      if is_under_check s last.us_board
      then if is_black_to_move last then white_won else black_won
      else draw
  | _ ↦
      if not (has_mating_material last.us_board)
      then draw
      else if leb 100 last.rule50_ply
      then draw
      else if leb 450 last.ply_count
      then draw
      else if leb 2 last.repetitions
      then draw
      else undecided
]
