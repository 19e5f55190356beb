-- ===== src/Chess/Board/Apply/Shown.antt =====
-- The piece on a square after a move that is no castling, from the look of the square.
use fat_fritz.Common.{ℕ, ◌<◌, false, ◌&&◌, ◌||◌, ◌==◌, ◌≡◌, ◌≢◌, ap}
use fat_fritz.Chess.Move.{Move, from, to, promotion, no_promotion}
use fat_fritz.Chess.Board.{ChessBoard}
use fat_fritz.Chess.Board.Look.{look, inner, kind_at, piece_at}
use fat_fritz.Chess.Board.Valid.{IsValid, IsPlain, moves_pawn}
use fat_fritz.Chess.Board.Apply.{is_takeable_step}
use fat_fritz.Chess.Board.Apply.Stages.{flag_square}
use fat_fritz.Chess.Board.Apply.Plain.{taken_board, taken_here, carried_board}
use fat_fritz.Chess.Board.Apply.Looks.{moved_look, piece_of, promoted_look}
use fat_fritz.Chess.Board.Apply.Pieces.{
  stepped_board, promoted_board, same_kings, same_their_king, same_kings_promoted, stepped_look,
  promoted_board-look, king_look,
}

module _ (b : ChessBoard) (m : Move) (v : IsValid b) (p : IsPlain b m) (s : ℕ) (hs : s < 64) where
  pub stepped_piece :
      piece_at (stepped_board b m v p) s
      ≡ piece_of
          (moved_look
            (look b (from m))
            (look b s)
            (moves_pawn b m)
            (inner s)
            (to m == s)
            (from m == s)
            (taken_here b m v p s)
            (is_takeable_step (carried_board b m v p) m && flag_square m == s))
          (b.our_king == s || b.their_king == s)
          (inner s)
  unfolding piece_at kind_at look
  stepped_piece =
      rw ((same_kings b m v p).0, (same_kings b m v p).1)
        (ap (λ l. piece_of l (b.our_king == s || b.their_king == s) (inner s))
          {x = look (stepped_board b m v p) s} (stepped_look b m v p s hs))

  pub promoted_piece :
      promotion m ≢ no_promotion
      → piece_at (promoted_board b m v p) s
        ≡ piece_of
            (moved_look
              (promoted_look (promotion m))
              (look b s)
              false
              (inner s)
              (to m == s)
              (from m == s)
              (taken_here b m v p s)
              false)
            (b.our_king == s || b.their_king == s)
            (inner s)
  unfolding piece_at kind_at look
  promoted_piece np =
      rw ((same_kings_promoted b m v p).0, (same_kings_promoted b m v p).1)
        (ap (λ l. piece_of l (b.our_king == s || b.their_king == s) (inner s))
          {x = look (promoted_board b m v p) s} (promoted_board-look b m v p s hs np))

  pub king_piece :
      b.our_king ≡ from m
      → piece_at (record (taken_board b m v p) { our_king = to m }) s
        ≡ piece_of
            (moved_look
              (promoted_look no_promotion)
              (look b s)
              false
              (inner s)
              (to m == s)
              (from m == s)
              (taken_here b m v p s)
              false)
            (to m == s || b.their_king == s)
            (inner s)
  unfolding piece_at kind_at look
  king_piece is_king = rw (same_their_king b m v p) (
      ap (λ l. piece_of l (to m == s || b.their_king == s) (inner s))
        {x = look (taken_board b m v p) s} (king_look b m v p s hs is_king))
