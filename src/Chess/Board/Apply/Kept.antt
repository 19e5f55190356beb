-- ===== src/Chess/Board/Apply/Kept.antt =====
-- ApplyMove of a move that is no castling keeps the board well formed.
use fat_fritz.Common.{
  ℕ, ◌<◌, Bool, true, false, ◌&&◌, ◌||◌, ◌==◌, ◌≡◌, ◌≢◌, refl, ap, subst, sym, arith,
}
use fat_fritz.Bits.{testbit}
use fat_fritz.Chess.Move.{Move, from, to, promotion, no_promotion}
use fat_fritz.Chess.Board.{ChessBoard}
use fat_fritz.Chess.Board.Look.{look, inner}
use fat_fritz.Chess.Board.Valid.{IsValid, IsPlaced, IsPlain, moves_pawn}
use fat_fritz.Chess.Board.Apply.Stages.{flag_square}
use fat_fritz.Chess.Board.Apply.Plain.{taken_board, taken_here}
use fat_fritz.Chess.Board.Apply.Looks.{promoted_look, moved_look-IsPlaced}
use fat_fritz.Chess.Board.Apply.Pieces.{
  stepped_board, promoted_board, our_king_stays, taken_here_theirs, stepped_look,
  promoted_board-look, king_look,
}

module _ (b : ChessBoard) (m : Move) (v : IsValid b) (p : IsPlain b m) where
  abbrev pub king_board : ChessBoard
  king_board = record (taken_board b m v p) { our_king = to m }

  module _ (s : ℕ) (hs : s < 64) where
    start_theirs : (from m == s) ≡ true → (look b s).theirs ≡ false
    unfolding look
    start_theirs h =
        let start = v.squares (from m) p.from_small in
        let there = ap (testbit b.their_pieces) {x = from m} {y = s} (ground (arith, h)) in
        ground (arith, start.apart, p.ours_moves, there)

    flag_apart : (takeable : Bool) → (takeable && flag_square m == s) ≡ true → inner s ≡ false
    flag_apart takeable h = ground arith

    king_not_to : ((b.our_king == s || b.their_king == s) && to m == s) ≡ false
    king_not_to = ground (arith, our_king_stays b m v p, p.no_king_taken)

    pub stepped-IsPlaced :
        IsPlaced (look (stepped_board b m v p) s) (inner s) (b.our_king == s || b.their_king == s)
    stepped-IsPlaced =
        let start = v.squares (from m) p.from_small in
        subst (λ l. IsPlaced l (inner s) (b.our_king == s || b.their_king == s))
          (sym (stepped_look b m v p s hs))
          (moved_look-IsPlaced (look b (from m)) (look b s) _ _ (moves_pawn b m) (inner s)
            (to m == s) (from m == s) (taken_here b m v p s) _ (v.squares s hs) start_theirs
            (λ h. let f = taken_here_theirs b m v p s hs h in (f.1, f.2, f.3)) (flag_apart _)
            (ground (arith, start.pawn_plain)) (ground (arith, king_not_to)) (ground arith))

    pub promoted-IsPlaced :
        promotion m ≢ no_promotion
        → IsPlaced
            (look (promoted_board b m v p) s)
            (inner s)
            (b.our_king == s || b.their_king == s)
    promoted-IsPlaced np =
        subst (λ l. IsPlaced l (inner s) (b.our_king == s || b.their_king == s))
          (sym (promoted_board-look b m v p s hs np))
          (moved_look-IsPlaced (promoted_look (promotion m)) (look b s) _ _ false (inner s)
            (to m == s) (from m == s) (taken_here b m v p s) false (v.squares s hs) start_theirs
            (λ h. let f = taken_here_theirs b m v p s hs h in (f.1, f.2, f.3))
            (λ h. ground (arith, h)) refl (ground (arith, king_not_to)) (ground arith))

    pub king-IsPlaced :
        b.our_king ≡ from m
        → IsPlaced (look king_board s) (inner s) (to m == s || b.their_king == s)
    unfolding look
    king-IsPlaced is_king =
        subst (λ l. IsPlaced l (inner s) (to m == s || b.their_king == s))
          (sym (king_look b m v p s hs is_king))
          (moved_look-IsPlaced (promoted_look no_promotion) (look b s) _ _ false (inner s)
            (to m == s) (from m == s) (taken_here b m v p s) false (v.squares s hs) start_theirs
            (λ h. let f = taken_here_theirs b m v p s hs h in (f.1, f.2, f.3))
            (λ h. ground (arith, h)) refl (ground arith) (ground arith))
