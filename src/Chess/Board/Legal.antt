-- ===== src/Chess/Board/Legal.antt =====
-- The legality of moves in src/chess/board.cc: GenerateKingAttackInfo, IsLegalMove and
-- GenerateLegalMoves, and the two spellings of castling.
pub mod Spellings
use fat_fritz.Common.{
  ℕ, zero, suc, ◌+◌, bit_and, bit_or, Bool, true, false, not, ◌&&◌, ◌||◌, ◌==◌, if◌then◌else◌, List,
  [], ◌∷◌, Option, none, some, get_or,
}
use fat_fritz.Common.Int.{ℤ, pos, ◌+ℤ◌, ◌-ℤ◌, ◌*ℤ◌, abs, eq_ℤ}
use fat_fritz.Chess.Square.{BoardSquare, square_at, square_of, is_valid, row, col}
use fat_fritz.Chess.BitBoard.{BitBoard, get, set, intersects}
use fat_fritz.Chess.Move.{Move, move, from, to}
use fat_fritz.Chess.Attacks.Tables.{
  Direction, rook_directions, bishop_directions, rook_attacks, bishop_attacks, knight_attacks,
  pawn_attacks,
}
use fat_fritz.Chess.Attacks.Sliders.{Sliders}
use fat_fritz.Chess.Board.{ChessBoard}
use fat_fritz.Chess.Board.Apply.{apply_move}
use fat_fritz.Chess.Board.Attacked.{is_under_check, their_knights}
use fat_fritz.Chess.Board.Moves.{generate_pseudolegal_moves}

-- KingAttackInfo, with the count of attackers that GenerateKingAttackInfo keeps beside it.
pub record KingAttackInfo : Type 0 where
  pub double_check : Bool
  pub pinned_pieces : BitBoard
  pub attack_lines : BitBoard

pub record Attackers : Type 0 where
  pub pinned : BitBoard
  pub lines : BitBoard
  pub count : ℕ

abbrev pub in_check : KingAttackInfo → Bool
in_check info = not (info.attack_lines == 0)

abbrev is_some : Option BoardSquare → Bool
is_some none = false
is_some (some _) = true

-- A slider of theirs is met: it pins the piece before it, or gives check along the line.
unfoldable pub slider_met : Option BoardSquare → BitBoard → Attackers → Attackers
slider_met (some pinned_piece) line a = record a { pinned = set a.pinned pinned_piece }
slider_met none line a = record a { lines = bit_or a.lines line; count = a.count + 1 }

-- The inner `while (true)` along a direction. Fuel of 8 is enough to meet the edge.
unfoldable pub scan_ray :
    ChessBoard
    → BitBoard
    → Direction
    → ℕ
    → ℤ
    → ℤ
    → Option BoardSquare
    → BitBoard
    → Attackers
    → Attackers
scan_ray b sliders d zero r c found line a = a
scan_ray b sliders (dr, dc) (suc fuel) r c found line a =
    let dst_row = r +ℤ dr in
    let dst_col = c +ℤ dc in
    let destination = square_at dst_row dst_col in
    let ours = get b.our_pieces destination in
    let found' = if ours then some destination else found in
    let line' = if is_some found' then line else set line destination in
    let rest = scan_ray b sliders (dr, dc) fuel dst_row dst_col found' line' a in
    if not (is_valid dst_row dst_col)
    then a
    else if ours && is_some found
    then a
    else if get b.their_pieces destination
    then if get sliders destination then slider_met found' line' a else a
    else rest

unfoldable pub scan_rays : ChessBoard → BitBoard → List Direction → Attackers → Attackers
scan_rays b sliders [] a = a
scan_rays b sliders (d ∷ ds) a =
    scan_rays b sliders ds
      (scan_ray b sliders d 8 (pos (row b.our_king)) (pos (col b.our_king)) none 0 a)

-- The checks by sliders, if any of them is aligned with our king on an empty board.
unfoldable pub scan_sliders :
    ChessBoard → BitBoard → List Direction → List ℕ → Attackers → Attackers
scan_sliders b sliders directions table a =
    if intersects (get_or table b.our_king 0) (bit_and b.their_pieces sliders)
    then scan_rays b sliders directions a
    else a

-- The checks by pawns or knights: at most one can give check.
unfoldable pub leaper_check : BitBoard → Attackers → Attackers
leaper_check attacking a = record {
  pinned = a.pinned;
  lines = bit_or a.lines attacking;
  count = if not (attacking == 0) then a.count + 1 else a.count;
}

-- GenerateKingAttackInfo(). Its assertion that there are at most two attackers is not executed in
-- a release build.
unfoldable pub generate_king_attack_info : ChessBoard → KingAttackInfo
generate_king_attack_info b =
    let a0 : Attackers = record { pinned = 0; lines = 0; count = 0 } in
    let a1 = scan_sliders b b.rooks_and_queens rook_directions rook_attacks a0 in
    let a2 = scan_sliders b b.bishops_and_queens bishop_directions bishop_attacks a1 in
    let attacking_pawns =
      bit_and (bit_and (get_or pawn_attacks b.our_king 0) b.their_pieces) b.pawns_and_flags in
    let a3 = leaper_check attacking_pawns a2 in
    let a4 = leaper_check (bit_and (get_or knight_attacks b.our_king 0) (their_knights b)) a3 in
    record { double_check = a4.count == 2; pinned_pieces = a4.pinned; attack_lines = a4.lines }

-- Making the move does not leave our king in check.
unfoldable pub survives : Sliders → ChessBoard → Move → Bool
survives s b m = not (is_under_check s (apply_move b m).0)

-- Seen from our king, the two squares lie on one line.
unfoldable pub stays_on_line : ChessBoard → Move → Bool
stays_on_line b m =
    let dx_from = pos (col (from m)) -ℤ pos (col b.our_king) in
    let dy_from = pos (row (from m)) -ℤ pos (row b.our_king) in
    let dx_to = pos (col (to m)) -ℤ pos (col b.our_king) in
    let dy_to = pos (row (to m)) -ℤ pos (row b.our_king) in
    if eq_ℤ dx_from (pos 0) || eq_ℤ dx_to (pos 0)
    then eq_ℤ dx_from dx_to
    else eq_ℤ (dx_from *ℤ dy_to) (dx_to *ℤ dy_from)

-- IsLegalMove(move, king_attack_info).
unfoldable pub is_legal_move : Sliders → ChessBoard → KingAttackInfo → Move → Bool
is_legal_move s b info m =
    if row (from m) == 4
      && get b.pawns_and_flags (from m)
      && not (col (from m) == col (to m))
      && get b.pawns_and_flags (square_of 7 (col (to m)))
    then survives s b m
    else if in_check info
    then if from m == b.our_king
      then survives s b m
      else if get info.pinned_pieces (from m)
      then false
      else if info.double_check
      then false
      else get info.attack_lines (to m)
    else if from m == b.our_king
    then if not (row (from m) == 0)
        || not (row (to m) == 0)
        || (abs (pos (col (from m)) -ℤ pos (col (to m))) == 1 && not (get b.our_pieces (to m)))
      then true
      else survives s b m
    else if not (get info.pinned_pieces (from m))
    then true
    else stays_on_line b m

-- `remove_if` and `erase`.
unfoldable pub keep_if : (Move → Bool) → List Move → List Move
keep_if p [] = []
keep_if p (m ∷ ms) = let rest = keep_if p ms in if p m then m ∷ rest else rest

-- GenerateLegalMoves().
unfoldable pub generate_legal_moves : Sliders → ChessBoard → List Move
generate_legal_moves s b =
    keep_if (is_legal_move s b (generate_king_attack_info b)) (generate_pseudolegal_moves s b)

-- IsSameMove(move1, move2), where the squares that it names are those from the first rank.
unfoldable pub is_same_move : ChessBoard → Move → Move → Bool
is_same_move b m1 m2 =
    if m1 == m2
    then true
    else if not (from m1 == from m2) || not (from m1 == 4) || not (b.our_king == from m1)
    then false
    else if to m1 == 0 && to m2 == 2
    then true
    else if to m1 == 2 && to m2 == 0
    then true
    else if to m1 == 6 && to m2 == 7
    then true
    else if to m1 == 7 && to m2 == 6
    then true
    else false

-- GetLegacyMove(move): the king to its destination.
unfoldable pub get_legacy_move : ChessBoard → Move → Move
get_legacy_move b m =
    if not (b.our_king == from m) || not (get b.our_pieces (to m))
    then m
    else if m == move 4 7
    then move 4 6
    else if m == move 4 0
    then move 4 2
    else m

-- GetModernMove(move): the king to its rook.
unfoldable pub get_modern_move : ChessBoard → Move → Move
get_modern_move b m =
    if not (b.our_king == 4) || not (from m == 4)
    then m
    else if m == move 4 6 && not (get b.our_pieces 6)
    then move 4 7
    else if m == move 4 2 && not (get b.our_pieces 2)
    then move 4 0
    else m
