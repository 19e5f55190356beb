-- ===== src/Chess/Board/Apply/Looks.antt =====
-- What a square shows after a move, from what it and the mover's square showed before.
use fat_fritz.Common.{
  Bool, true, false, not, ◌&&◌, ◌||◌, if◌then◌else◌, ◌≡◌, arith, Option, none, some,
}
use fat_fritz.Chess.Move.{Promotion}
use fat_fritz.Chess.Board.Look.{Look, Kind, Side, us, them, kind_of}
use fat_fritz.Chess.Board.Valid.{IsPlaced}
use fat_fritz.Chess.Board.Apply.Stages.{adds_rook, adds_bishop}

-- What a square shows: `start` is the look of the mover's square, and the flags say whether this
-- square is the destination, the start, that of a pawn taken en passant, or gets a flag.
abbrev pub moved_look : Look → Look → Bool → Bool → Bool → Bool → Bool → Bool → Look
moved_look start l mover_pawn is_inner at_to at_from at_taken at_flag = record {
  ours = at_to || not at_from && l.ours;
  theirs = not at_taken && not at_to && l.theirs;
  rook_like = not at_from && (start.rook_like && at_to || not at_to && l.rook_like);
  bishop_like = not at_from && (start.bishop_like && at_to || not at_to && l.bishop_like);
  pawn_like =
      at_flag
      || not at_from
        && (mover_pawn && at_to || not at_taken && (not at_to && l.pawn_like) && is_inner);
}

abbrev pub piece_of : Look → Bool → Bool → Option (Side × Kind)
piece_of l is_king is_inner =
    if l.ours
    then some (us, kind_of l is_king is_inner)
    else if l.theirs
    then some (them, kind_of l is_king is_inner)
    else none

-- The kinds that a promotion marks on the destination.
abbrev pub promoted_look : Promotion → Look
promoted_look k = record {
  ours = true;
  theirs = false;
  rook_like = adds_rook k;
  bishop_like = adds_bishop k;
  pawn_like = false;
}

-- The look of a piece that arrives with the kinds of `start`.
abbrev pub arrived_look : Look → Bool → Look
arrived_look start mover_pawn = record {
  ours = true;
  theirs = false;
  rook_like = start.rook_like;
  bishop_like = start.bishop_like;
  pawn_like = mover_pawn;
}

pub piece_of-away :
    (start l : Look) (is_king mover_pawn is_inner at_from at_taken at_flag : Bool)
    → (at_from ≡ true → l.theirs ≡ false)
    → (at_taken ≡ true → l.ours ≡ false)
    → (at_flag ≡ true → is_inner ≡ false)
    → piece_of
        (moved_look start l mover_pawn is_inner false at_from at_taken at_flag)
        is_king
        is_inner
      ≡ (if at_from then none else if at_taken then none else piece_of l is_king is_inner)
unfolding kind_of
piece_of-away start l is_king mover_pawn is_inner at_from at_taken at_flag hf ht hfl = ground arith

pub piece_of-to :
    (start l : Look) (mover_pawn is_inner at_taken at_flag : Bool)
    → (at_flag ≡ true → is_inner ≡ false)
    → (mover_pawn ≡ true → is_inner ≡ true)
    → piece_of (moved_look start l mover_pawn is_inner true false at_taken at_flag) false is_inner
      ≡ some (us, kind_of (arrived_look start mover_pawn) false true)
unfolding kind_of
piece_of-to start l mover_pawn is_inner at_taken at_flag hfl hm = ground arith

-- A move keeps a square well placed.
pub moved_look-IsPlaced :
    (start l : Look)
    (king_here king_after mover_pawn is_inner at_to at_from at_taken at_flag : Bool)
    → IsPlaced l is_inner king_here
    → (at_from ≡ true → l.theirs ≡ false)
    → (at_taken ≡ true → (l.ours ≡ false) × (l.rook_like ≡ false) × (l.bishop_like ≡ false))
    → (at_flag ≡ true → is_inner ≡ false)
    → (mover_pawn && (start.rook_like || start.bishop_like)) ≡ false
    → (king_after && at_to && (start.rook_like || start.bishop_like || mover_pawn)) ≡ false
    → (king_after && not at_to && not king_here) ≡ false
    → IsPlaced
        (moved_look start l mover_pawn is_inner at_to at_from at_taken at_flag)
        is_inner
        king_after
moved_look-IsPlaced start l king_here king_after mover_pawn is_inner at_to at_from at_taken at_flag
      pl hf ht hfl hm hk hs =
    record {
      apart = ground (arith, pl.apart);
      placed = ground (arith, pl.placed);
      pawn_plain = ground (arith, pl.pawn_plain);
      king_plain = ground (arith, pl.king_plain);
    }
