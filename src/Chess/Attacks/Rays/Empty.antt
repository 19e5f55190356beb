-- ===== src/Chess/Attacks/Rays/Empty.antt =====
-- The constant attack tables agree with the rules that they tabulate.
use fat_fritz.Common.{
  ℕ, ◌<◌, List, [], ◌∷◌, Bool, true, ◌==◌, ltb, if◌then◌else◌, get_or, ◌≡◌, refl, arith, all_below,
  all_below_sound,
}
use fat_fritz.Common.Int.{pos, negsuc, ◌+ℤ◌}
use fat_fritz.Bits.{shl64}
use fat_fritz.Chess.Square.{BoardSquare, square_at, is_valid, row, col}
use fat_fritz.Chess.BitBoard.{BitBoard}
use fat_fritz.Chess.BitBoard
use fat_fritz.Chess.Attacks.Tables.{
  Direction, rook_directions, bishop_directions, rook_attacks, bishop_attacks, knight_attacks,
  pawn_attacks,
}
use fat_fritz.Chess.Attacks.Rays.{walk, walk_all, sliding_attacks}

-- The squares one given step away, as far as they are on the board.
unfoldable pub leaper_attacks : List Direction → BoardSquare → BitBoard
leaper_attacks [] sq = 0
leaper_attacks ((dr, dc) ∷ ds) sq =
    let r = pos (row sq) +ℤ dr in
    let c = pos (col sq) +ℤ dc in
    let rest = leaper_attacks ds sq in
    if is_valid r c then BitBoard.set rest (square_at r c) else rest

abbrev pub knight_steps : List Direction
knight_steps =
    (pos 2, pos 1)
    ∷ (pos 2, negsuc 0)
    ∷ (negsuc 1, pos 1)
    ∷ (negsuc 1, negsuc 0)
    ∷ (pos 1, pos 2)
    ∷ (pos 1, negsuc 1)
    ∷ (negsuc 0, pos 2)
    ∷ (negsuc 0, negsuc 1)
    ∷ []

-- Opposing pawns stand one row up, and never on the last row.
unfoldable pub pawn_attackers : BoardSquare → BitBoard
pawn_attackers sq =
    if ltb sq 48 then leaper_attacks ((pos 1, pos 1) ∷ (pos 1, negsuc 0) ∷ []) sq else 0

agrees : List ℕ → (BoardSquare → BitBoard) → Bool
agrees table rule = all_below 64 (λ sq. get_or table sq 0 == rule sq)

rook_table : agrees rook_attacks (λ sq. sliding_attacks rook_directions sq 0) ≡ true
unfolding agrees all_below sliding_attacks walk_all walk BitBoard.set BitBoard.get shl64
rook_table = refl

bishop_table : agrees bishop_attacks (λ sq. sliding_attacks bishop_directions sq 0) ≡ true
unfolding agrees all_below sliding_attacks walk_all walk BitBoard.set BitBoard.get shl64
bishop_table = refl

knight_table : agrees knight_attacks (leaper_attacks knight_steps) ≡ true
unfolding agrees all_below leaper_attacks BitBoard.set shl64
knight_table = refl

pawn_table : agrees pawn_attacks pawn_attackers ≡ true
unfolding agrees all_below pawn_attackers leaper_attacks BitBoard.set shl64
pawn_table = refl

agrees_at :
    (table : List ℕ) (rule : BoardSquare → BitBoard) (sq : BoardSquare)
    → agrees table rule ≡ true
    → sq < 64
    → get_or table sq 0 ≡ rule sq
unfolding agrees
agrees_at table rule sq t h = ground (arith, all_below_sound 64 _ sq t h)

-- At every square of the board the four tables hold what their rule gives: the rays of an empty
-- board for rooks and bishops, the eight jumps of a knight, and the two squares from which an
-- opposing pawn attacks.
pub tables_correct :
    (sq : BoardSquare)
    → sq < 64
    → (get_or rook_attacks sq 0 ≡ sliding_attacks rook_directions sq 0)
      × (get_or bishop_attacks sq 0 ≡ sliding_attacks bishop_directions sq 0)
      × (get_or knight_attacks sq 0 ≡ leaper_attacks knight_steps sq)
      × (get_or pawn_attacks sq 0 ≡ pawn_attackers sq)
tables_correct sq h = (
  agrees_at _ _ sq rook_table h,
  agrees_at _ _ sq bishop_table h,
  agrees_at _ _ sq knight_table h,
  agrees_at _ _ sq pawn_table h,
)
