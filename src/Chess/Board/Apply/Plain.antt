-- ===== src/Chess/Board/Apply/Plain.antt =====
-- ApplyMove on the pieces: a move that is no castling.
use fat_fritz.Common.{
  ℕ, ◌<◌, Bool, false, not, ◌&&◌, ◌||◌, ◌==◌, ◌≡◌, ap, arith, Bool-cases, inl, inr,
}
use fat_fritz.Chess.Square.{square_of, col}
use fat_fritz.Chess.BitBoard.{reset}
use fat_fritz.Chess.BitBoard.Laws.{get-eq-testbit, testbit-reset, reset-IsU64}
use fat_fritz.Chess.Move.{Move, from, to}
use fat_fritz.Chess.Board.{ChessBoard}
use fat_fritz.Chess.Board.Look.{look, Words, inner}
use fat_fritz.Chess.Board.Valid.{IsValid, IsPlain, moves_pawn}
use fat_fritz.Chess.Board.Apply.{
  move_and_capture, is_en_passant, take_en_passant, lose_rights, carry_kind,
}
use fat_fritz.Chess.Board.Apply.Stages.{
  taken_square, look-move_and_capture, look-take_en_passant, look-lose_rights, look-carry_kind,
  move_and_capture-Words, take_en_passant-Words, lose_rights-Words,
}

module _ (b : ChessBoard) (m : Move) (v : IsValid b) (p : IsPlain b m) where
  abbrev pub captured_board : ChessBoard
  captured_board = move_and_capture b m

  -- Taking the captured piece off does not change whether the capture is en passant.
  pub is_en_passant_kept : is_en_passant captured_board m ≡ is_en_passant b m
  unfolding is_en_passant move_and_capture look
  is_en_passant_kept = ground (
    arith,
    p.pawn_up,
    p.ours_moves,
    p.to_free,
    get-eq-testbit b.pawns_and_flags (from m) v.words.pawns_u64 p.from_small,
    get-eq-testbit b.pawns_and_flags (square_of 7 (col (to m))) v.words.pawns_u64 (omega arith),
    get-eq-testbit (reset b.pawns_and_flags (to m)) (from m)
        (reset-IsU64 b.pawns_and_flags (to m) v.words.pawns_u64) p.from_small,
    get-eq-testbit (reset b.pawns_and_flags (to m)) (square_of 7 (col (to m)))
        (reset-IsU64 b.pawns_and_flags (to m) v.words.pawns_u64) (omega arith),
    testbit-reset b.pawns_and_flags (to m) (from m) p.to_small p.from_small,
    testbit-reset b.pawns_and_flags (to m) (square_of 7 (col (to m))) p.to_small (omega arith),
  )

  -- The board after the move of the piece and the capture.
  abbrev pub taken_board : ChessBoard
  taken_board = take_en_passant captured_board m

  abbrev pub taken_here : ℕ → Bool
  taken_here s = is_en_passant b m && taken_square m == s

  pub no_stay : (to m == from m) ≡ false
  no_stay = elim (Bool-cases (to m == from m)) [
    | inl same ↦
        let there = ap (λ t. (look b t).ours) {x = to m} {y = from m} (ground (arith, same)) in
        ground (arith, there, p.to_free, p.ours_moves)
    | inr other ↦ other
  ]

  pub not_taken : taken_here (from m) ≡ false
  unfolding is_en_passant
  not_taken = ground arith

  module _ (s : ℕ) (hs : s < 64) where
    pub look-taken_board : look taken_board s ≡ (record (look b s) {
      ours = to m == s || (not (from m == s) && (look b s).ours);
      theirs = not (taken_here s) && not (to m == s) && (look b s).theirs;
      rook_like = not (to m == s) && (look b s).rook_like;
      bishop_like = not (to m == s) && (look b s).bishop_like;
      pawn_like = not (taken_here s) && (not (to m == s) && (look b s).pawn_like) && inner s;
    })
    unfolding look
    look-taken_board = ground (
      arith,
      is_en_passant_kept,
      look-take_en_passant captured_board m s hs,
      look-move_and_capture b m s p.from_small p.to_small hs,
    )

  pub taken_board-Words : Words taken_board
  taken_board-Words = take_en_passant-Words captured_board m (move_and_capture-Words b m v.words)

  abbrev pub carried_board : ChessBoard
  carried_board = carry_kind (lose_rights taken_board m) m

  module _ (s : ℕ) (hs : s < 64) where
    pub look-carried_board : look carried_board s ≡ (record (look b s) {
      ours = to m == s || (not (from m == s) && (look b s).ours);
      theirs = not (taken_here s) && not (to m == s) && (look b s).theirs;
      rook_like =
          not (from m == s)
          && ((look b (from m)).rook_like && to m == s || not (to m == s) && (look b s).rook_like);
      bishop_like =
          not (from m == s)
          && ((look b (from m)).bishop_like && to m == s
              || not (to m == s) && (look b s).bishop_like);
      pawn_like =
          not (from m == s)
          && (moves_pawn b m && to m == s
              || not (taken_here s) && (not (to m == s) && (look b s).pawn_like) && inner s);
    })
    unfolding look
    look-carried_board = ground (
      arith,
      no_stay,
      not_taken,
      look-carry_kind (lose_rights taken_board m) m s
          (lose_rights-Words taken_board m taken_board-Words) p.from_small p.to_small hs,
      look-lose_rights taken_board m s hs,
      look-lose_rights taken_board m (from m) p.from_small,
      look-taken_board s hs,
      look-taken_board (from m) p.from_small,
    )
