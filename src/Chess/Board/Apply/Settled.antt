-- ===== src/Chess/Board/Apply/Settled.antt =====
-- ApplyMove of a move that is no castling keeps the board well formed.
use fat_fritz.Common.{
  ℕ, ◌+◌, ◌<◌, Bool, true, false, ◌&&◌, ◌==◌, ==_refl, ◌≡◌, ◌≢◌, refl, arith, Bool-cases, inl, inr,
}
use fat_fritz.Chess.Move.{
  Move, from, to, promotion, rook, bishop, queen, knight, no_promotion, Promotion,
}
use fat_fritz.Chess.Board.{ChessBoard}
use fat_fritz.Chess.BitBoard.Laws.{get-eq-testbit}
use fat_fritz.Chess.Board.Look.{look}
use fat_fritz.Chess.Board.Valid.{IsSettled-at, IsSettled, IsValid, IsPlain, moves_pawn}
use fat_fritz.Chess.Board.Apply.{is_takeable_step, lose_rights, apply_plain}
use fat_fritz.Chess.Board.Apply.Stages.{
  lose_rights-Words, carry_kind-Words, promote-Words, flag_double_step-Words, flag_square,
}
use fat_fritz.Chess.Board.Apply.Plain.{
  taken_board, taken_here, carried_board, look-carried_board, taken_board-Words, no_stay,
}
use fat_fritz.Chess.Board.Apply.Pieces.{
  stepped_board, promoted_board, same_kings, same_their_king, same_kings_promoted, our_king_stays,
  taken_here_theirs, stepped_look, promoted_board-look, king_look,
}
use fat_fritz.Chess.Board.Apply.Kept.{
  king_board, stepped-IsPlaced, promoted-IsPlaced, king-IsPlaced,
}

module _ (b : ChessBoard) (m : Move) (v : IsValid b) (p : IsPlain b m) where
  -- The king is not a pawn taken en passant.
  king_not_taken : taken_here b m v p b.their_king ≡ false
  king_not_taken = elim (Bool-cases (taken_here b m v p b.their_king)) [
    | inl taken ↦
        let there = v.squares b.their_king v.their_king_small in
        let pawn_there = taken_here_theirs b m v p b.their_king v.their_king_small taken in
        ground (arith, there.king_plain, pawn_there, ==_refl b.their_king, taken)
    | inr kept ↦ kept
  ]

  stepped_kings :
      b.our_king ≢ from m
      → ((look (stepped_board b m v p) b.our_king).ours ≡ true)
        × ((look (stepped_board b m v p) b.their_king).theirs ≡ true)
  stepped_kings nk = ground (
    arith,
    stepped_look b m v p b.our_king v.our_king_small,
    stepped_look b m v p b.their_king v.their_king_small,
    v.our_king_ours,
    v.their_king_theirs,
    king_not_taken,
    p.no_king_taken,
    our_king_stays b m v p,
  )

  takeable_shape :
      is_takeable_step (carried_board b m v p) m ≡ true
      → (moves_pawn b m ≡ true) × (to m ≡ 24 + flag_square m)
  unfolding is_takeable_step look
  takeable_shape h =
      let carried_words =
        carry_kind-Words (lose_rights (taken_board b m v p) m) m
          (lose_rights-Words (taken_board b m v p) m (taken_board-Words b m v p)) in
      let read =
        get-eq-testbit (carried_board b m v p).pawns_and_flags (to m) carried_words.pawns_u64
          p.to_small in
      let mover : moves_pawn b m ≡ true =
        ground (arith, read, look-carried_board b m v p (to m) p.to_small, ==_refl (to m)) in
      (mover, ground (arith, mover, p.pawn_double))

  stepped_flags :
      (c : ℕ)
      → c < 8
      → (look (stepped_board b m v p) c).pawn_like ≡ true
      → ((look (stepped_board b m v p) (24 + c)).ours ≡ true)
        × ((look (stepped_board b m v p) (24 + c)).pawn_like ≡ true)
  stepped_flags c hc h =
      let flagged : (is_takeable_step (carried_board b m v p) m && flag_square m == c) ≡ true =
        ground (arith, stepped_look b m v p c (omega arith), p.pawn_up) in
      let shape = takeable_shape (ground (arith, flagged)) in
      let there : to m ≡ 24 + c = ground (arith, shape, flagged) in
      ground (arith, stepped_look b m v p (24 + c) (omega arith), shape.0, there, no_stay b m v p)

  stepped-IsSettled : b.our_king ≢ from m → IsSettled (stepped_board b m v p)
  stepped-IsSettled nk =
      let kings = same_kings b m v p in
      IsSettled-at (stepped_board b m v p) b.our_king b.their_king kings.0 kings.1
        (flag_double_step-Words _ m
          (carry_kind-Words _ m (lose_rights-Words _ m (taken_board-Words b m v p))))
        v.our_king_small v.their_king_small (stepped_kings nk).0 (stepped_kings nk).1
        (stepped-IsPlaced b m v p) stepped_flags

  module _ (nk : b.our_king ≢ from m) (np : promotion m ≢ no_promotion) where
    promoted_flags :
        (c : ℕ)
        → c < 8
        → (look (promoted_board b m v p) c).pawn_like ≡ true
        → ((look (promoted_board b m v p) (24 + c)).ours ≡ true)
          × ((look (promoted_board b m v p) (24 + c)).pawn_like ≡ true)
    promoted_flags c hc h = ground (arith, promoted_board-look b m v p c (omega arith) np)

    promoted-IsSettled : IsSettled (promoted_board b m v p)
    promoted-IsSettled =
        let kings = same_kings_promoted b m v p in
        let ours = promoted_board-look b m v p b.our_king v.our_king_small np in
        let theirs = promoted_board-look b m v p b.their_king v.their_king_small np in
        IsSettled-at (promoted_board b m v p) b.our_king b.their_king kings.0 kings.1
          (promote-Words _ m (taken_board-Words b m v p)) v.our_king_small v.their_king_small
          (ground (arith, ours, v.our_king_ours, our_king_stays b m v p))
          (ground (arith, theirs, v.their_king_theirs, king_not_taken, p.no_king_taken))
          (λ s hs. promoted-IsPlaced b m v p s hs np) promoted_flags

  module _ (is_king : b.our_king ≡ from m) where
    king_flags :
        (c : ℕ)
        → c < 8
        → (look (king_board b m v p) c).pawn_like ≡ true
        → ((look (king_board b m v p) (24 + c)).ours ≡ true)
          × ((look (king_board b m v p) (24 + c)).pawn_like ≡ true)
    unfolding look
    king_flags c hc h = ground (arith, king_look b m v p c (omega arith) is_king)

    king-IsSettled : IsSettled (king_board b m v p)
    unfolding look
    king-IsSettled =
        let same = same_their_king b m v p in
        let words = taken_board-Words b m v p in
        let ours = king_look b m v p (to m) p.to_small is_king in
        let theirs = king_look b m v p b.their_king v.their_king_small is_king in
        IsSettled-at (king_board b m v p) (to m) b.their_king refl same
          (record {
            ours_u64 = words.ours_u64;
            theirs_u64 = words.theirs_u64;
            rooks_u64 = words.rooks_u64;
            bishops_u64 = words.bishops_u64;
            pawns_u64 = words.pawns_u64;
          })
          p.to_small v.their_king_small (ground (arith, ours, ==_refl (to m)))
          (ground (arith, theirs, v.their_king_theirs, king_not_taken, p.no_king_taken))
          (λ s hs. king-IsPlaced b m v p s hs is_king) king_flags

  plain-IsSettled :
      (reset_50_moves : Bool) (k : Promotion)
      → promotion m ≡ k
      → b.our_king ≢ from m
      → IsSettled
          (elim k as (λ _. ChessBoard × Bool) [
            | no_promotion ↦ (stepped_board b m v p, reset_50_moves)
            | _ ↦ (promoted_board b m v p, true)
          ]).0
  plain-IsSettled reset_50_moves no_promotion e nk = stepped-IsSettled nk
  plain-IsSettled reset_50_moves queen e nk = promoted-IsSettled nk (ground (arith, e))
  plain-IsSettled reset_50_moves rook e nk = promoted-IsSettled nk (ground (arith, e))
  plain-IsSettled reset_50_moves bishop e nk = promoted-IsSettled nk (ground (arith, e))
  plain-IsSettled reset_50_moves knight e nk = promoted-IsSettled nk (ground (arith, e))

  pub apply_plain-IsSettled : IsSettled (apply_plain b m).0
  unfolding apply_plain
  apply_plain-IsSettled = elim (Bool-cases (from m == b.our_king)) [
    | inl k ↦ rw (k) (king-IsSettled (ground (arith, k)))
    | inr nk ↦ rw (nk) (plain-IsSettled _ (promotion m) refl (ground (arith, nk)))
  ]
