-- ===== src/Chess/Board/Apply/Stages.antt =====
-- What each stage of ApplyMove does to a square.
use fat_fritz.Common.{
  ℕ, ◌<◌, Bool, true, false, not, ◌&&◌, ◌||◌, ◌==◌, ◌≡◌, arith, Bool-cases, inl, inr,
}
use fat_fritz.Bits.{testbit-bit_and, bit_and-IsU64}
use fat_fritz.Chess.Square.{square_of, col}
use fat_fritz.Chess.BitBoard.{set_if, reset, get}
use fat_fritz.Chess.BitBoard.Laws.{
  testbit-set, testbit-reset, testbit-set_if, get-eq-testbit, set-IsU64, set_if-IsU64, reset-IsU64,
}
use fat_fritz.Chess.Move.{
  Move, from, to, promotion, rook, bishop, queen, knight, no_promotion, Promotion,
}
use fat_fritz.Chess.Board.{ChessBoard, pawn_mask}
use fat_fritz.Chess.Board.Look.{look, Words, inner, testbit-pawn_mask}
use fat_fritz.Chess.Board.Apply.{
  move_and_capture, is_en_passant, take_en_passant, is_takeable_step, promote, lose_rights,
  carry_kind, flag_double_step,
}

module _ (b : ChessBoard) (m : Move) (s : ℕ) (hf : from m < 64) (ht : to m < 64) (hs : s < 64) where
  pub look-move_and_capture : look (move_and_capture b m) s ≡ (record (look b s) {
    ours = to m == s || (not (from m == s) && (look b s).ours);
    theirs = not (to m == s) && (look b s).theirs;
    rook_like = not (to m == s) && (look b s).rook_like;
    bishop_like = not (to m == s) && (look b s).bishop_like;
    pawn_like = not (to m == s) && (look b s).pawn_like;
  })
  unfolding look move_and_capture
  look-move_and_capture = ground (
    arith,
    testbit-set (reset b.our_pieces (from m)) (to m) s ht hs,
    testbit-reset b.our_pieces (from m) s hf hs,
    testbit-reset b.their_pieces (to m) s ht hs,
    testbit-reset b.rooks_and_queens (to m) s ht hs,
    testbit-reset b.bishops_and_queens (to m) s ht hs,
    testbit-reset b.pawns_and_flags (to m) s ht hs,
  )

pub move_and_capture-Words : (b : ChessBoard) (m : Move) → Words b → Words (move_and_capture b m)
unfolding move_and_capture
move_and_capture-Words b m w = record {
  ours_u64 = set-IsU64 _ (to m) (reset-IsU64 b.our_pieces (from m) w.ours_u64);
  theirs_u64 = reset-IsU64 b.their_pieces (to m) w.theirs_u64;
  rooks_u64 = reset-IsU64 b.rooks_and_queens (to m) w.rooks_u64;
  bishops_u64 = reset-IsU64 b.bishops_and_queens (to m) w.bishops_u64;
  pawns_u64 = reset-IsU64 b.pawns_and_flags (to m) w.pawns_u64;
}

-- The square of the pawn that an en passant capture takes.
abbrev pub taken_square : Move → ℕ
taken_square m = square_of 4 (col (to m))

module _ (b : ChessBoard) (m : Move) (s : ℕ) (hs : s < 64) where
  pub look-take_en_passant : look (take_en_passant b m) s ≡ (record (look b s) {
    theirs = not (is_en_passant b m && taken_square m == s) && (look b s).theirs;
    pawn_like = not (is_en_passant b m && taken_square m == s) && (look b s).pawn_like && inner s;
  })
  unfolding look take_en_passant
  look-take_en_passant = elim (Bool-cases (is_en_passant b m)) [
    | inl ep ↦ rw (ep) (
        ground (
          arith,
          testbit-reset b.their_pieces (taken_square m) s (omega arith) hs,
          testbit-reset b.pawns_and_flags (taken_square m) s (omega arith) hs,
          testbit-bit_and s (reset b.pawns_and_flags (taken_square m)) pawn_mask,
          testbit-pawn_mask s hs,
        ))
    | inr plain ↦
        rw (plain)
          (ground (arith, testbit-bit_and s b.pawns_and_flags pawn_mask, testbit-pawn_mask s hs))
  ]

pub take_en_passant-Words : (b : ChessBoard) (m : Move) → Words b → Words (take_en_passant b m)
unfolding take_en_passant
take_en_passant-Words b m w = ground (
  arith,
  reset-IsU64 b.their_pieces (taken_square m) w.theirs_u64,
  bit_and-IsU64 (reset b.pawns_and_flags (taken_square m)) pawn_mask,
  reset-IsU64 b.pawns_and_flags (taken_square m) w.pawns_u64,
  bit_and-IsU64 b.pawns_and_flags pawn_mask w.pawns_u64,
)

module _ (b : ChessBoard) (m : Move) (s : ℕ) (hs : s < 64) where
  pub look-lose_rights : look (lose_rights b m) s ≡ look b s
  unfolding look lose_rights
  look-lose_rights = ground arith

pub lose_rights-Words : (b : ChessBoard) (m : Move) → Words b → Words (lose_rights b m)
unfolding lose_rights
lose_rights-Words b m w = ground arith

module _ (b : ChessBoard) (m : Move) (s : ℕ) (w : Words b) (hf : from m < 64) (ht : to m < 64)
    (hs : s < 64) where
  pub look-carry_kind : look (carry_kind b m) s ≡ (record (look b s) {
    rook_like =
        not (from m == s) && ((look b (from m)).rook_like && to m == s || (look b s).rook_like);
    bishop_like =
        not (from m == s) && ((look b (from m)).bishop_like && to m == s || (look b s).bishop_like);
    pawn_like =
        not (from m == s) && ((look b (from m)).pawn_like && to m == s || (look b s).pawn_like);
  })
  unfolding look carry_kind
  look-carry_kind = ground (
    arith,
    testbit-reset (set_if b.rooks_and_queens (to m) (get b.rooks_and_queens (from m))) (from m) s hf
        hs,
    testbit-reset (set_if b.bishops_and_queens (to m) (get b.bishops_and_queens (from m))) (from m)
        s hf hs,
    testbit-reset (set_if b.pawns_and_flags (to m) (get b.pawns_and_flags (from m))) (from m) s hf
        hs,
    testbit-set_if b.rooks_and_queens (to m) s ht hs (get b.rooks_and_queens (from m)),
    testbit-set_if b.bishops_and_queens (to m) s ht hs (get b.bishops_and_queens (from m)),
    testbit-set_if b.pawns_and_flags (to m) s ht hs (get b.pawns_and_flags (from m)),
    get-eq-testbit b.rooks_and_queens (from m) w.rooks_u64 hf,
    get-eq-testbit b.bishops_and_queens (from m) w.bishops_u64 hf,
    get-eq-testbit b.pawns_and_flags (from m) w.pawns_u64 hf,
  )

pub carry_kind-Words : (b : ChessBoard) (m : Move) → Words b → Words (carry_kind b m)
unfolding carry_kind
carry_kind-Words b m w = record {
  ours_u64 = w.ours_u64;
  theirs_u64 = w.theirs_u64;
  rooks_u64 = reset-IsU64 _ (from m) (set_if-IsU64 b.rooks_and_queens (to m) _ w.rooks_u64);
  bishops_u64 = reset-IsU64 _ (from m) (set_if-IsU64 b.bishops_and_queens (to m) _ w.bishops_u64);
  pawns_u64 = reset-IsU64 _ (from m) (set_if-IsU64 b.pawns_and_flags (to m) _ w.pawns_u64);
}

-- The kinds that a promotion adds.
abbrev pub adds_rook : Promotion → Bool
adds_rook queen = true
adds_rook rook = true
adds_rook no_promotion = false
adds_rook bishop = false
adds_rook knight = false

abbrev pub adds_bishop : Promotion → Bool
adds_bishop queen = true
adds_bishop bishop = true
adds_bishop no_promotion = false
adds_bishop rook = false
adds_bishop knight = false

module _ (b : ChessBoard) (m : Move) (s : ℕ) (hf : from m < 64) (ht : to m < 64) (hs : s < 64) where
  pub look-promote : look (promote b m) s ≡ (record (look b s) {
    rook_like = adds_rook (promotion m) && to m == s || (look b s).rook_like;
    bishop_like = adds_bishop (promotion m) && to m == s || (look b s).bishop_like;
    pawn_like = not (from m == s) && (look b s).pawn_like;
  })
  unfolding look promote
  look-promote = ground (
    arith,
    testbit-set b.rooks_and_queens (to m) s ht hs,
    testbit-set b.bishops_and_queens (to m) s ht hs,
    testbit-reset b.pawns_and_flags (from m) s hf hs,
  )

pub promote-Words : (b : ChessBoard) (m : Move) → Words b → Words (promote b m)
unfolding promote
promote-Words b m w = ground (
  arith,
  set-IsU64 b.rooks_and_queens (to m) w.rooks_u64,
  set-IsU64 b.bishops_and_queens (to m) w.bishops_u64,
  reset-IsU64 b.pawns_and_flags (from m) w.pawns_u64,
)

-- The square on which a double step leaves its flag.
abbrev pub flag_square : Move → ℕ
flag_square m = square_of 0 (col (to m))

-- A flag may appear on our first rank, in the column of a pawn that made a double step.
pub look-flag_double_step :
    (b : ChessBoard) (m : Move) (s : ℕ)
    → s < 64
    → look (flag_double_step b m) s ≡ (record (look b s) {
      pawn_like = is_takeable_step b m && flag_square m == s || (look b s).pawn_like;
    })
unfolding look flag_double_step
look-flag_double_step b m s hs =
    ground (arith, testbit-set b.pawns_and_flags (flag_square m) s (omega arith) hs)

pub flag_double_step-Words : (b : ChessBoard) (m : Move) → Words b → Words (flag_double_step b m)
unfolding flag_double_step
flag_double_step-Words b m w =
    ground (arith, set-IsU64 b.pawns_and_flags (flag_square m) w.pawns_u64)
