-- ===== src/Chess/Position/Games.antt =====
-- Games: the positions that moves by the rules reach.
use fat_fritz.Common.{ℕ, ◌≡◌, none, some}
use fat_fritz.Chess.Move.{Move, from}
use fat_fritz.Chess.Board.{ChessBoard, mirror}
use fat_fritz.Chess.Board.Valid.{IsValid, IsPlain}
use fat_fritz.Chess.Board.Mirror.{mirror-IsValid}
use fat_fritz.Chess.Board.Apply.{apply_move, castling_of}
use fat_fritz.Chess.Board.Apply.Castle.{CanCastle}
use fat_fritz.Chess.Board.Apply.Rules.{apply_move-IsSettled, apply_move-castling-IsSettled}
use fat_fritz.Chess.Position.{Position, after_move}

-- A move by the rules, but for checks: an ordinary one, or castling.
pub data ByRules (b : ChessBoard) (m : Move) : Type 0 where
  ordinary : IsPlain b m → (b.our_king ≡ from m → castling_of b m ≡ none) → ByRules b m
  castling :
      (king_dst rook_src rook_dst : ℕ)
      → b.our_king ≡ from m
      → castling_of b m ≡ some (king_dst, rook_src, rook_dst)
      → CanCastle b king_dst rook_src rook_dst
      → ByRules b m

-- The positions of a game from `start`, whatever the memory of a new position held.
pub data IsReached (start : Position) : Position → Type 0 where
  begun : IsReached start start
  moved :
      {p : Position} (old_repetitions old_cycle : ℕ) (m : Move)
      → IsReached start p
      → ByRules p.us_board m
      → IsReached start (after_move old_repetitions old_cycle p m)

apply_move-IsValid :
    (b : ChessBoard) (m : Move) → IsValid b → ByRules b m → IsValid (mirror (apply_move b m).0)
apply_move-IsValid b m v (ordinary p plain) = mirror-IsValid _ (apply_move-IsSettled b m v p plain)
apply_move-IsValid b m v (castling k r d is_king e c) =
    mirror-IsValid _ (apply_move-castling-IsSettled b m k r d v is_king e c)

-- From a position whose board is valid, every game by the rules (ordinary moves and castling,
-- with Mirror after each) meets only valid boards.
pub reached-IsValid :
    (start p : Position) → IsValid start.us_board → IsReached start p → IsValid p.us_board
unfolding after_move
reached-IsValid start _ v begun = v
reached-IsValid start _ v (moved {p = p} old_repetitions old_cycle m r by) =
    apply_move-IsValid p.us_board m (reached-IsValid start p v r) by
