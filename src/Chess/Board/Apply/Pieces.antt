-- ===== src/Chess/Board/Apply/Pieces.antt =====
-- Where the pieces stand after ApplyMove of a move that is no castling.
use fat_fritz.Common.{
  ℕ, ◌+◌, ◌<◌, true, false, ◌&&◌, ◌||◌, ◌==◌, ◌≡◌, ◌≢◌, ap, ◌∙◌, arith, Bool-cases, inl, inr,
}
use fat_fritz.Bits.{testbit}
use fat_fritz.Chess.Square.{square_of, col}
use fat_fritz.Chess.Move.{Move, from, to, promotion, no_promotion}
use fat_fritz.Chess.Board.{ChessBoard}
use fat_fritz.Chess.BitBoard.{get}
use fat_fritz.Chess.BitBoard.Laws.{get-eq-testbit}
use fat_fritz.Chess.Board.Look.{Look, look, inner}
use fat_fritz.Chess.Board.Valid.{IsValid, IsPlain, moves_pawn}
use fat_fritz.Chess.Board.Apply.{
  move_and_capture, is_en_passant, take_en_passant, is_takeable_step, promote, lose_rights,
  carry_kind, flag_double_step,
}
use fat_fritz.Chess.Board.Apply.Stages.{
  look-promote, look-flag_double_step, taken_square, flag_square,
}
use fat_fritz.Chess.Board.Apply.Plain.{
  taken_board, taken_here, carried_board, look-taken_board, look-carried_board, no_stay,
}
use fat_fritz.Chess.Board.Apply.Looks.{moved_look, promoted_look}

module _ (b : ChessBoard) (m : Move) (v : IsValid b) (p : IsPlain b m) where
  abbrev pub stepped_board : ChessBoard
  stepped_board = flag_double_step (carried_board b m v p) m

  abbrev pub promoted_board : ChessBoard
  promoted_board = promote (taken_board b m v p) m

  pub same_kings : (stepped_board.our_king ≡ b.our_king) × (stepped_board.their_king ≡ b.their_king)
  unfolding flag_double_step carry_kind lose_rights take_en_passant move_and_capture
  same_kings = ground arith

  pub same_kings_promoted :
      (promoted_board.our_king ≡ b.our_king) × (promoted_board.their_king ≡ b.their_king)
  unfolding promote take_en_passant move_and_capture
  same_kings_promoted = ground arith

  pub same_their_king : (taken_board b m v p).their_king ≡ b.their_king
  unfolding take_en_passant move_and_capture
  same_their_king = ground arith

  pub our_king_stays : (b.our_king == to m) ≡ false
  our_king_stays = elim (Bool-cases (b.our_king == to m)) [
    | inl same ↦
        let there = ap (λ t. (look b t).ours) {x = b.our_king} {y = to m} (ground (arith, same)) in
        ground (arith, there, p.to_free, v.our_king_ours)
    | inr other ↦ other
  ]

  pub their_king_apart : (b.their_king == from m) ≡ false
  their_king_apart = elim (Bool-cases (b.their_king == from m)) [
    | inl same ↦
        let there =
          ap (λ t. (look b t).theirs) {x = b.their_king} {y = from m} (ground (arith, same)) in
        let start = v.squares (from m) p.from_small in
        ground (arith, there, p.ours_moves, v.their_king_theirs, start.apart)
    | inr other ↦ other
  ]

  -- A pawn taken en passant is theirs.
  taken_theirs :
      is_en_passant b m ≡ true
      → ((look b (taken_square m)).theirs ≡ true)
        × ((look b (taken_square m)).ours ≡ false)
        × ((look b (taken_square m)).rook_like ≡ false)
        × ((look b (taken_square m)).bishop_like ≡ false)
        × ((look b (taken_square m)).pawn_like ≡ true)
  unfolding is_en_passant look
  taken_theirs ep =
      let flagged =
        get-eq-testbit b.pawns_and_flags (56 + col (to m)) v.words.pawns_u64 (omega arith) in
      let flag_here : (look b (56 + col (to m))).pawn_like ≡ true = ground (
        arith,
        flagged,
        ap (get b.pawns_and_flags) {x = square_of 7 (col (to m))} {y = 56 + col (to m)}
            (omega arith),
      ) in
      let pawn_there = v.their_flags (col (to m)) (omega arith) flag_here in
      let at_theirs =
        ap (testbit b.their_pieces) {x = taken_square m} {y = 32 + col (to m)} (omega arith) in
      let at_ours =
        ap (testbit b.our_pieces) {x = taken_square m} {y = 32 + col (to m)} (omega arith) in
      let at_rooks =
        ap (testbit b.rooks_and_queens) {x = taken_square m} {y = 32 + col (to m)} (omega arith) in
      let at_bishops =
        ap (testbit b.bishops_and_queens) {x = taken_square m} {y = 32 + col (to m)}
          (omega arith) in
      let at_pawns =
        ap (testbit b.pawns_and_flags) {x = taken_square m} {y = 32 + col (to m)} (omega arith) in
      let there = v.squares (32 + col (to m)) (omega arith) in
      ground (
        arith, pawn_there, there.apart, there.pawn_plain, at_ours, at_theirs, at_rooks, at_bishops,
        at_pawns,
      )

  module _ (s : ℕ) (hs : s < 64) where
    pub taken_here_theirs :
        taken_here b m v p s ≡ true
        → ((look b s).theirs ≡ true)
          × ((look b s).ours ≡ false)
          × ((look b s).rook_like ≡ false)
          × ((look b s).bishop_like ≡ false)
          × ((look b s).pawn_like ≡ true)
    unfolding look
    taken_here_theirs h =
        let same : s ≡ taken_square m = ground (arith, h) in
        let at_theirs = ap (testbit b.their_pieces) {x = s} {y = taken_square m} same in
        let at_ours = ap (testbit b.our_pieces) {x = s} {y = taken_square m} same in
        let at_rooks = ap (testbit b.rooks_and_queens) {x = s} {y = taken_square m} same in
        let at_bishops = ap (testbit b.bishops_and_queens) {x = s} {y = taken_square m} same in
        let at_pawns = ap (testbit b.pawns_and_flags) {x = s} {y = taken_square m} same in
        let ep : is_en_passant b m ≡ true = ground (arith, h) in
        ground (arith, at_theirs, at_ours, at_rooks, at_bishops, at_pawns, taken_theirs ep)

    pub stepped_look :
        look stepped_board s
        ≡ moved_look
            (look b (from m))
            (look b s)
            (moves_pawn b m)
            (inner s)
            (to m == s)
            (from m == s)
            (taken_here b m v p s)
            (is_takeable_step (carried_board b m v p) m && flag_square m == s)
    unfolding look
    stepped_look =
        look-flag_double_step (carried_board b m v p) m s hs
        ∙ ap
            (λ (l : Look). record {
              ours = l.ours;
              theirs = l.theirs;
              rook_like = l.rook_like;
              bishop_like = l.bishop_like;
              pawn_like =
                  is_takeable_step (carried_board b m v p) m && flag_square m == s || l.pawn_like;
            })
            (look-carried_board b m v p s hs)

    pub promoted_board-look :
        promotion m ≢ no_promotion
        → look promoted_board s
          ≡ moved_look
              (promoted_look (promotion m))
              (look b s)
              false
              (inner s)
              (to m == s)
              (from m == s)
              (taken_here b m v p s)
              false
    unfolding look
    promoted_board-look np =
        let looks = look-promote (taken_board b m v p) m s p.from_small p.to_small hs in
        let taken = look-taken_board b m v p s hs in
        let start = v.squares (from m) p.from_small in
        let pawn_there = p.pawn_promotes np in
        let rook_here = ap (testbit b.rooks_and_queens) {x = from m} {y = s} in
        let bishop_here = ap (testbit b.bishops_and_queens) {x = from m} {y = s} in
        ground (
          arith,
          looks,
          taken,
          start.pawn_plain,
          pawn_there,
          rook_here,
          bishop_here,
          no_stay b m v p,
        )

    pub king_look :
        b.our_king ≡ from m
        → look (taken_board b m v p) s
          ≡ moved_look
              (promoted_look no_promotion)
              (look b s)
              false
              (inner s)
              (to m == s)
              (from m == s)
              (taken_here b m v p s)
              false
    unfolding look
    king_look is_king =
        let taken = look-taken_board b m v p s hs in
        let start = v.squares (from m) p.from_small in
        let rook_here = ap (testbit b.rooks_and_queens) {x = from m} {y = s} in
        let bishop_here = ap (testbit b.bishops_and_queens) {x = from m} {y = s} in
        let pawn_here = ap (testbit b.pawns_and_flags) {x = from m} {y = s} in
        ground (
          arith,
          taken,
          start.king_plain,
          is_king,
          rook_here,
          bishop_here,
          pawn_here,
          no_stay b m v p,
        )
