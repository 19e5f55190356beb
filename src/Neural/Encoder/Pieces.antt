-- ===== src/Neural/Encoder/Pieces.antt =====
-- What the first planes say of the position.
use fat_fritz.Common.{
  ℕ, ◌<◌, bit_and, Bool, true, false, not, ◌&&◌, ◌||◌, ◌==◌, some, get_or, ◌≡◌, refl, ap, ap₂, ◌↔◌,
  sym, ◌∙◌, arith,
}
use fat_fritz.Bits.{testbit, shl64, testbit-bit_and, testbit-bit_or, bit_and-IsU64}
use fat_fritz.Chess.BitBoard.{as_board, minus, without}
use fat_fritz.Chess.BitBoard.Laws.{testbit-as_board, testbit-minus, testbit-without}
use fat_fritz.Chess.Board.{
  ChessBoard, pawn_mask, occupied, pawns, knights, bishops, rooks, queens, kings,
}
use fat_fritz.Chess.Board.Look.{
  Look, Kind, Side, us, them, pawn, knight, bishop, rook, queen, king, look, inner,
  testbit-pawn_mask, kind_of, kind_at, piece_at,
}
use fat_fritz.Chess.Board.Valid.{IsValid, IsPlaced}
use fat_fritz.Neural.Encoder.{plane_of, board_planes}

-- Where the plane of a piece stands.
abbrev pub plane_index : Side → Kind → ℕ
plane_index us pawn = 0
plane_index us knight = 1
plane_index us bishop = 2
plane_index us rook = 3
plane_index us queen = 4
plane_index us king = 5
plane_index them pawn = 6
plane_index them knight = 7
plane_index them bishop = 8
plane_index them rook = 9
plane_index them queen = 10
plane_index them king = 11

-- The words of the kinds.
abbrev kind_word : ChessBoard → Kind → ℕ
kind_word b pawn = pawns b
kind_word b knight = knights b
kind_word b bishop = bishops b
kind_word b rook = rooks b
kind_word b queen = queens b
kind_word b king = kings b

abbrev side_word : ChessBoard → Side → ℕ
side_word b us = b.our_pieces
side_word b them = b.their_pieces

mask_at-board_planes :
    (b : ChessBoard) (repetitions : ℕ) (side : Side) (k : Kind)
    → (get_or (board_planes b repetitions false) (plane_index side k) (plane_of 0)).mask
      ≡ bit_and (side_word b side) (kind_word b k)
unfolding board_planes
mask_at-board_planes b repetitions us pawn = refl
mask_at-board_planes b repetitions us knight = refl
mask_at-board_planes b repetitions us bishop = refl
mask_at-board_planes b repetitions us rook = refl
mask_at-board_planes b repetitions us queen = refl
mask_at-board_planes b repetitions us king = refl
mask_at-board_planes b repetitions them pawn = refl
mask_at-board_planes b repetitions them knight = refl
mask_at-board_planes b repetitions them bishop = refl
mask_at-board_planes b repetitions them rook = refl
mask_at-board_planes b repetitions them queen = refl
mask_at-board_planes b repetitions them king = refl

-- Whether a look shows a kind.
abbrev shows_kind : Look → Bool → Bool → Kind → Bool
shows_kind l is_king is_inner pawn = l.pawn_like && is_inner
shows_kind l is_king is_inner knight =
    ((((l.ours || l.theirs) && not (l.pawn_like && is_inner)) && not is_king) && not l.rook_like)
    && not l.bishop_like
shows_kind l is_king is_inner bishop = l.bishop_like && not l.rook_like
shows_kind l is_king is_inner rook = l.rook_like && not l.bishop_like
shows_kind l is_king is_inner queen = l.rook_like && l.bishop_like
shows_kind l is_king is_inner king = is_king

abbrev shows_side : Look → Side → Bool
shows_side l us = l.ours
shows_side l them = l.theirs

module _ (b : ChessBoard) (v : IsValid b) (s : ℕ) (h : s < 64) where
  testbit-pawns : testbit (pawns b) s ≡ ((look b s).pawn_like && inner s)
  unfolding look
  testbit-pawns =
      ground (arith, testbit-bit_and s b.pawns_and_flags pawn_mask, testbit-pawn_mask s h)

  testbit-knights :
      testbit (knights b) s
      ≡ shows_kind (look b s) (b.our_king == s || b.their_king == s) (inner s) knight
  unfolding look
  testbit-knights =
      let w0 = minus (occupied b) (pawns b) in
      let w1 = without w0 b.our_king in
      let w2 = without w1 b.their_king in
      ground (
        arith,
        testbit-minus (minus w2 b.rooks_and_queens) b.bishops_and_queens s v.words.bishops_u64 h,
        testbit-minus w2 b.rooks_and_queens s v.words.rooks_u64 h,
        testbit-without w1 b.their_king s v.their_king_small h,
        testbit-without w0 b.our_king s v.our_king_small h,
        testbit-minus (occupied b) (pawns b) s
            (bit_and-IsU64 b.pawns_and_flags pawn_mask v.words.pawns_u64) h,
        testbit-bit_or s b.our_pieces b.their_pieces,
        testbit-pawns,
      )

  testbit-kings : testbit (kings b) s ≡ (b.our_king == s || b.their_king == s)
  unfolding as_board
  testbit-kings = ground (
    arith,
    testbit-bit_or s (shl64 1 b.our_king) (shl64 1 b.their_king),
    testbit-as_board b.our_king s v.our_king_small h,
    testbit-as_board b.their_king s v.their_king_small h,
  )

  testbit-kind_word :
      (k : Kind)
      → testbit (kind_word b k) s
        ≡ shows_kind (look b s) (b.our_king == s || b.their_king == s) (inner s) k
  unfolding look
  testbit-kind_word pawn = testbit-pawns
  testbit-kind_word knight = testbit-knights
  testbit-kind_word bishop =
      testbit-minus b.bishops_and_queens b.rooks_and_queens s v.words.rooks_u64 h
  testbit-kind_word rook =
      testbit-minus b.rooks_and_queens b.bishops_and_queens s v.words.bishops_u64 h
  testbit-kind_word queen = testbit-bit_and s b.rooks_and_queens b.bishops_and_queens
  testbit-kind_word king = testbit-kings

testbit-side_word :
    (b : ChessBoard) (s : ℕ) (side : Side)
    → testbit (side_word b side) s ≡ shows_side (look b s) side
unfolding look
testbit-side_word b s us = refl
testbit-side_word b s them = refl

abbrev kind_number : Kind → ℕ
kind_number pawn = 0
kind_number knight = 1
kind_number bishop = 2
kind_number rook = 3
kind_number queen = 4
kind_number king = 5

kind_number-injective : (k k' : Kind) → kind_number k ≡ kind_number k' → k ≡ k'
kind_number-injective k k' h = ground (arith, h)

-- On a placed look a kind is shown exactly if it is the kind there.
shows_kind-kind_of :
    (l : Look) (is_king is_inner : Bool) (k : Kind)
    → IsPlaced l is_inner is_king
    → (l.ours || l.theirs) ≡ true
    → shows_kind l is_king is_inner k ≡ (kind_number k == kind_number (kind_of l is_king is_inner))
unfolding kind_of
shows_kind-kind_of l is_king is_inner k v h =
    ground (arith, v.placed, v.pawn_plain, v.king_plain, h)

module _ (b : ChessBoard) (v : IsValid b) (s : ℕ) (h : s < 64) where
  shows_piece :
      (side : Side) (k : Kind)
      → (shows_side (look b s) side
          && shows_kind (look b s) (b.our_king == s || b.their_king == s) (inner s) k)
        ≡ true
      → piece_at b s ≡ some (side, k)
  unfolding piece_at kind_at look
  shows_piece us k e =
      let there = v.squares s h in
      let same =
        shows_kind-kind_of (look b s) (b.our_king == s || b.their_king == s) (inner s) k there
          (ground (arith, e)) in
      let kinds = kind_number-injective k (kind_at b s) (ground (arith, e, same)) in
      ground (arith, e, kinds)
  shows_piece them k e =
      let there = v.squares s h in
      let same =
        shows_kind-kind_of (look b s) (b.our_king == s || b.their_king == s) (inner s) k there
          (ground (arith, e)) in
      let kinds = kind_number-injective k (kind_at b s) (ground (arith, e, same)) in
      ground (arith, e, kinds, there.apart)

  piece_shown :
      (side : Side) (k : Kind)
      → piece_at b s ≡ some (side, k)
      → (shows_side (look b s) side
          && shows_kind (look b s) (b.our_king == s || b.their_king == s) (inner s) k)
        ≡ true
  unfolding piece_at kind_at look
  piece_shown side k e =
      let there = v.squares s h in
      let covered : ((look b s).ours || (look b s).theirs) ≡ true = ground (arith, e) in
      let same =
        shows_kind-kind_of (look b s) (b.our_king == s || b.their_king == s) (inner s) k there
          covered in
      ground (arith, e, same, there.apart)

  pub testbit-board_planes :
      (repetitions : ℕ) (side : Side) (k : Kind)
      → (testbit
            (get_or (board_planes b repetitions false) (plane_index side k) (plane_of 0)).mask
            s
          ≡ true)
        ↔ (piece_at b s ≡ some (side, k))
  unfolding look
  testbit-board_planes repetitions side k =
      let e : testbit
            (get_or (board_planes b repetitions false) (plane_index side k) (plane_of 0)).mask s
          ≡ (shows_side (look b s) side
              && shows_kind (look b s) (b.our_king == s || b.their_king == s) (inner s) k) =
        ap (λ m. testbit m s) (mask_at-board_planes b repetitions side k)
        ∙ testbit-bit_and s (side_word b side) (kind_word b k)
        ∙ ap₂ (◌&&◌) (testbit-side_word b s side) (testbit-kind_word b v s h k) in
      (λ on. shows_piece side k (sym e ∙ on), λ there. e ∙ piece_shown side k there)
