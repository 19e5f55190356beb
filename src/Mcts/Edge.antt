-- ===== src/Mcts/Edge.antt =====
-- Edge of src/mcts/node.h and src/mcts/node.cc: a move with its probability in 16 bits.
pub mod Rounding
use fat_fritz.Common.{
  ℕ, ◌+◌, ◌-◌, ◌*◌, ◌/◌, ◌%◌, ◌^◌, bit_or, ltb, Bool, true, false, if◌then◌else◌, List, map,
}
use fat_fritz.Chess.Move
use fat_fritz.Chess.Move.{Move}

pub record Edge : Type 0 where
  pub move : Move
  pub p : ℕ

-- SetP(p), on the 32 bits of a `float` that is not negative: the addition of `roundings` to them as an
-- `int32_t` does not overflow, and what is negative becomes 0.
unfoldable pub set_p : Edge → ℕ → Edge
set_p e bits = record e {
  p =
      if ltb (bits + 2 ^ 11) (3 * 2 ^ 28)
      then 0
      else (bits + 2 ^ 11 - 3 * 2 ^ 28) / 2 ^ 12 % 2 ^ 16;
}

-- GetP(), as the 32 bits of a `float`.
unfoldable pub get_p : Edge → ℕ
get_p e = bit_or (e.p * 2 ^ 12 % 2 ^ 32) (3 * 2 ^ 28)

-- GetMove(as_opponent).
unfoldable pub get_move : Edge → Bool → Move
get_move e as_opponent = if as_opponent then Move.mirror e.move else e.move

-- FromMovelist(moves).
unfoldable pub from_movelist : List Move → List Edge
from_movelist moves = map (λ m. record { move = m; p = 0 }) moves
