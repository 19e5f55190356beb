-- ===== src/Chess/Board/Apply/Moved.antt =====
-- ApplyMove of a move that is no castling moves the pieces by the rules.
use fat_fritz.Common.{
  ℕ, ◌<◌, Bool, true, false, ◌&&◌, ◌||◌, ◌==◌, if◌then◌else◌, ◌≡◌, ◌≢◌, refl, ap, ◌∙◌, arith,
  Bool-cases, inl, inr, Option, none, some,
}
use fat_fritz.Bits.{testbit}
use fat_fritz.Chess.Move.{
  Move, from, to, promotion, rook, bishop, queen, knight, no_promotion, Promotion,
}
use fat_fritz.Chess.Board.{ChessBoard}
use fat_fritz.Chess.Board.Look
use fat_fritz.Chess.Board.Look.{
  Look, look, Words, inner, Kind, Side, us, them, kind_of, kind_at, piece_at,
}
use fat_fritz.Chess.Board.Valid.{IsValid, IsPlain, moves_pawn}
use fat_fritz.Chess.Board.Apply.{is_en_passant, is_takeable_step, apply_plain}
use fat_fritz.Chess.Board.Apply.Stages.{taken_square, flag_square}
use fat_fritz.Chess.Board.Apply.Plain.{taken_board, taken_here, carried_board, no_stay}
use fat_fritz.Chess.Board.Apply.Looks.{
  moved_look, piece_of, promoted_look, arrived_look, piece_of-away, piece_of-to,
}
use fat_fritz.Chess.Board.Apply.Pieces.{
  stepped_board, promoted_board, our_king_stays, their_king_apart, taken_here_theirs,
}
use fat_fritz.Chess.Board.Apply.Shown.{stepped_piece, promoted_piece, king_piece}

-- The kind that stands on the destination.
unfoldable pub kind_after : ChessBoard → Move → Kind
kind_after b m = elim (promotion m) [
  | no_promotion ↦ kind_at b (from m)
  | queen ↦ Look.queen
  | rook ↦ Look.rook
  | bishop ↦ Look.bishop
  | knight ↦ Look.knight
]

-- A move by the rules: the mover leaves its square and stands on the destination, a pawn taken en
-- passant disappears, and nothing else changes.
unfoldable pub piece_after : ChessBoard → Move → ℕ → Option (Side × Kind)
piece_after b m s =
    if to m == s
    then some (us, kind_after b m)
    else if from m == s
    then none
    else if is_en_passant b m && taken_square m == s
    then none
    else piece_at b s

module _ (b : ChessBoard) (m : Move) (v : IsValid b) (p : IsPlain b m) (s : ℕ) (hs : s < 64) where
  flag_outside : (takeable : Bool) → (takeable && flag_square m == s) ≡ true → inner s ≡ false
  flag_outside takeable h = ground arith

  -- A square that is not the destination.
  module _ (away : (to m == s) ≡ false) where
    from_ours : (from m == s) ≡ true → (look b s).theirs ≡ false
    unfolding look
    from_ours h =
        let start = v.squares (from m) p.from_small in
        let there = ap (testbit b.their_pieces) {x = from m} {y = s} (ground (arith, h)) in
        ground (arith, start.apart, p.ours_moves, there)

    module _ (start : Look) (mover_pawn at_flag : Bool)
        (flag : at_flag ≡ true → inner s ≡ false) where
      -- The look that the pieces have away from the destination.
      away_piece :
          piece_of
            (moved_look start
              (look b s)
              mover_pawn
              (inner s)
              (to m == s)
              (from m == s)
              (taken_here b m v p s)
              at_flag)
            (b.our_king == s || b.their_king == s)
            (inner s)
          ≡ piece_after b m s
      unfolding piece_after piece_at kind_at kind_of
      away_piece = rw (away) (
          piece_of-away start (look b s) (b.our_king == s || b.their_king == s) mover_pawn (inner s)
            (from m == s) (taken_here b m v p s) at_flag from_ours
            (λ h. (taken_here_theirs b m v p s hs h).1) flag)

    away_king : b.our_king ≡ from m → (from m == s) ≡ false → (b.our_king == s) ≡ false
    away_king is_king h = ground arith

  -- The destination.
  module _ (here : (to m == s) ≡ true) where
    from_away : (from m == s) ≡ false
    from_away = ground (arith, no_stay b m v p, here)

    no_king_here : (b.our_king == s || b.their_king == s) ≡ false
    no_king_here = ground (arith, our_king_stays b m v p, p.no_king_taken, here)

    arrived :
        (c : ChessBoard) (start : Look) (mover_pawn at_flag : Bool)
        → piece_at c s
          ≡ piece_of
              (moved_look start
                (look b s)
                mover_pawn
                (inner s)
                (to m == s)
                (from m == s)
                (taken_here b m v p s)
                at_flag)
              (b.our_king == s || b.their_king == s)
              (inner s)
        → (at_flag ≡ true → inner s ≡ false)
        → (mover_pawn ≡ true → inner s ≡ true)
        → kind_of (arrived_look start mover_pawn) false true ≡ kind_after b m
        → piece_at c s ≡ piece_after b m s
    unfolding piece_after
    arrived c start mover_pawn at_flag e flag pawn kind =
        e
        ∙ rw (here, from_away, no_king_here)
            (piece_of-to start (look b s) mover_pawn (inner s) (taken_here b m v p s) at_flag flag
                pawn
              ∙ ap (λ k. some (us, k)) {x = kind_of (arrived_look start mover_pawn) false true}
                  {y = kind_after b m} kind)

    pawn_inner : promotion m ≡ no_promotion → moves_pawn b m ≡ true → inner s ≡ true
    pawn_inner np h = ground (arith, p.pawn_up, p.pawn_stays, here, h, np)

    kind_stepped :
        b.our_king ≢ from m
        → promotion m ≡ no_promotion
        → kind_of (arrived_look (look b (from m)) (moves_pawn b m)) false true ≡ kind_after b m
    unfolding kind_after kind_at kind_of
    kind_stepped nk np = ground (arith, their_king_apart b m v p)

    kind_promoted :
        promotion m ≢ no_promotion
        → kind_of (arrived_look (promoted_look (promotion m)) false) false true ≡ kind_after b m
    unfolding kind_after kind_of
    kind_promoted np = ground arith

    king_arrived :
        b.our_king ≡ from m
        → piece_at (record (taken_board b m v p) { our_king = to m }) s ≡ piece_after b m s
    unfolding piece_after kind_after kind_at kind_of
    king_arrived is_king =
        let start = v.squares (from m) p.from_small in
        let plain : promotion m ≡ no_promotion =
          ground (arith, p.pawn_promotes, start.king_plain, is_king) in
        (king_piece b m v p s hs) is_king ∙ rw (here) (ground (arith, plain, is_king))

  king_moved :
      b.our_king ≡ from m
      → piece_at (record (taken_board b m v p) { our_king = to m }) s ≡ piece_after b m s
  unfolding piece_after piece_at kind_at
  king_moved is_king = elim (Bool-cases (to m == s)) [
    | inl here ↦ king_arrived here is_king
    | inr away ↦
        (king_piece b m v p s hs) is_king
        ∙ rw (away) (
            piece_of-away (promoted_look no_promotion) (look b s) (b.their_king == s) false
              (inner s) (from m == s) (taken_here b m v p s) false (from_ours away)
              (λ h. (taken_here_theirs b m v p s hs h).1) (λ h. ground (arith, h))
            ∙ elim (Bool-cases (from m == s)) [
              | inl gone ↦ rw (gone) refl
              | inr kept ↦ rw (kept, away_king away is_king kept) refl
            ])
  ]

  stepped_moved :
      b.our_king ≢ from m
      → promotion m ≡ no_promotion
      → piece_at (stepped_board b m v p) s ≡ piece_after b m s
  stepped_moved nk np = elim (Bool-cases (to m == s)) [
    | inl here ↦
        arrived here (stepped_board b m v p) (look b (from m)) (moves_pawn b m) _
          ((stepped_piece b m v p s hs)) (flag_outside (is_takeable_step (carried_board b m v p) m))
          (pawn_inner here np) (kind_stepped here nk np)
    | inr away ↦
        (stepped_piece b m v p s hs)
        ∙ away_piece away (look b (from m)) (moves_pawn b m) _
            (flag_outside (is_takeable_step (carried_board b m v p) m))
  ]

  promoted_moved :
      promotion m ≢ no_promotion → piece_at (promoted_board b m v p) s ≡ piece_after b m s
  promoted_moved np = elim (Bool-cases (to m == s)) [
    | inl here ↦
        arrived here (promoted_board b m v p) (promoted_look (promotion m)) false false
          ((promoted_piece b m v p s hs) np) (λ h. ground (arith, h)) (λ h. ground (arith, h))
          (kind_promoted here np)
    | inr away ↦
        (promoted_piece b m v p s hs) np
        ∙ away_piece away (promoted_look (promotion m)) false false (λ h. ground (arith, h))
  ]

  plain_moved :
      (reset_50_moves : Bool) (k : Promotion)
      → promotion m ≡ k
      → b.our_king ≢ from m
      → piece_at
          (elim k as (λ _. ChessBoard × Bool) [
            | no_promotion ↦ (stepped_board b m v p, reset_50_moves)
            | _ ↦ (promoted_board b m v p, true)
          ]).0
          s
        ≡ piece_after b m s
  plain_moved reset_50_moves no_promotion e nk = stepped_moved nk e
  plain_moved reset_50_moves queen e nk = promoted_moved (ground (arith, e))
  plain_moved reset_50_moves rook e nk = promoted_moved (ground (arith, e))
  plain_moved reset_50_moves bishop e nk = promoted_moved (ground (arith, e))
  plain_moved reset_50_moves knight e nk = promoted_moved (ground (arith, e))

  pub apply_plain-moves : piece_at (apply_plain b m).0 s ≡ piece_after b m s
  unfolding apply_plain
  apply_plain-moves = elim (Bool-cases (from m == b.our_king)) [
    | inl k ↦ rw (k) (king_moved (ground (arith, k)))
    | inr nk ↦ rw (nk) (plain_moved _ (promotion m) refl (ground (arith, nk)))
  ]
