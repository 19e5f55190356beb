-- ===== src/Chess/Board/Apply/Castle.antt =====
-- The castling of ApplyMove moves the king and the rook.
use fat_fritz.Common.{
  ℕ, ◌+◌, ◌<◌, Bool, true, false, not, ◌&&◌, ◌||◌, ◌==◌, if◌then◌else◌, ==_refl, ◌≡◌, ◌≢◌, refl, ap,
  sym, ◌∙◌, arith, Bool-cases, inl, inr, Option, none, some,
}
use fat_fritz.Bits.{testbit, testbit-bit_and, bit_and-IsU64}
use fat_fritz.Chess.BitBoard.{reset, set}
use fat_fritz.Chess.BitBoard.Laws.{set-IsU64, reset-IsU64, testbit-set, testbit-reset}
use fat_fritz.Chess.Board.{ChessBoard, pawn_mask}
use fat_fritz.Chess.Board.Look.{
  testbit-pawn_mask, look, Words, inner, Kind, Side, us, kind_of, kind_at, piece_at, king, rook,
}
use fat_fritz.Chess.Board.Valid.{IsSettled-at, IsSettled, IsValid, IsPlaced}
use fat_fritz.Chess.Board.Apply.{do_castling}

-- The pieces after castling, as the rules have it.
unfoldable pub piece_castled : ChessBoard → ℕ → ℕ → ℕ → ℕ → Option (Side × Kind)
piece_castled b king_dst rook_src rook_dst s =
    if king_dst == s
    then some (us, king)
    else if rook_dst == s
    then some (us, rook)
    else if b.our_king == s || rook_src == s
    then none
    else piece_at b s

-- Our rook stands at its source, and nothing but the king or that rook on the two destinations.
pub record CanCastle (b : ChessBoard) (king_dst rook_src rook_dst : ℕ) : Type 0 where
  pub king_dst_small : king_dst < 64
  pub rook_src_small : rook_src < 64
  pub rook_dst_small : rook_dst < 64
  pub dsts_apart : king_dst ≢ rook_dst
  pub rook_there : piece_at b rook_src ≡ some (us, rook)
  pub king_dst_free : king_dst ≢ b.our_king → king_dst ≢ rook_src → piece_at b king_dst ≡ none
  pub rook_dst_free : rook_dst ≢ b.our_king → rook_dst ≢ rook_src → piece_at b rook_dst ≡ none

-- A square without another piece than our king or a rook of ours.
abbrev is_clear : ChessBoard → ℕ → Bool
is_clear b s =
    not (look b s).theirs
    && not (look b s).bishop_like
    && not ((look b s).pawn_like && inner s)
    && not (b.their_king == s)

module _ (b : ChessBoard) (v : IsValid b) (s : ℕ) (hs : s < 64) where
  clear_king : s ≡ b.our_king → is_clear b s ≡ true
  clear_king h =
      let here = v.squares s hs in
      let ours = ap (λ t. (look b t).ours) {x = s} {y = b.our_king} h in
      let theirs = ap (λ t. (look b t).theirs) {x = b.their_king} {y = s} in
      ground
        (arith, here.apart, here.king_plain, ours, v.our_king_ours, theirs, v.their_king_theirs)

  clear_rook : piece_at b s ≡ some (us, rook) → is_clear b s ≡ true
  unfolding piece_at kind_at kind_of look
  clear_rook h = let here = v.squares s hs in ground (arith, here.apart)

  clear_empty : piece_at b s ≡ none → is_clear b s ≡ true
  unfolding piece_at look
  clear_empty h =
      let here = v.squares s hs in
      let theirs = ap (testbit b.their_pieces) {x = b.their_king} {y = s} in
      ground (arith, here.placed, theirs, v.their_king_theirs)

module _ (b : ChessBoard) (king_dst rook_src rook_dst : ℕ) (v : IsValid b)
    (c : CanCastle b king_dst rook_src rook_dst) (s : ℕ) (hs : s < 64) where
  clear_at_rook : s ≡ rook_src → is_clear b s ≡ true
  clear_at_rook h = clear_rook b v s hs (ap (piece_at b) {x = s} {y = rook_src} h ∙ c.rook_there)

  clear_source : (b.our_king == s || rook_src == s) ≡ true → is_clear b s ≡ true
  clear_source h = elim (Bool-cases (b.our_king == s)) [
    | inl k ↦ clear_king b v s hs (ground (arith, k))
    | inr r ↦ clear_at_rook (ground (arith, h, r))
  ]

  clear_destination :
      (d : ℕ) → d ≡ s → (d ≢ b.our_king → d ≢ rook_src → piece_at b d ≡ none) → is_clear b s ≡ true
  clear_destination d h free = elim (Bool-cases (b.our_king == s || rook_src == s)) [
    | inl here ↦ clear_source here
    | inr away ↦ clear_empty b v s hs (
        ap (piece_at b) {x = s} {y = d} (sym h)
        ∙ free (λ e. ground (arith, e, h, away)) (λ e. ground (arith, e, h, away)))
  ]

  clear_destinations : (king_dst == s || rook_dst == s) ≡ true → is_clear b s ≡ true
  clear_destinations h = elim (Bool-cases (king_dst == s)) [
    | inl k ↦ clear_destination king_dst (ground (arith, k)) c.king_dst_free
    | inr r ↦ clear_destination rook_dst (ground (arith, h, r)) c.rook_dst_free
  ]

  king_rook : king_dst ≡ s → (not (rook_src == s) && (look b s).rook_like) ≡ false
  unfolding piece_at look
  king_rook h = elim (Bool-cases (b.our_king == s || rook_src == s)) [
    | inl source ↦ ground (arith, (v.squares s hs).king_plain, source)
    | inr away ↦
        let empty : piece_at b s ≡ none =
          ap (piece_at b) {x = s} {y = king_dst} (sym h)
          ∙ c.king_dst_free (λ e. ground (arith, e, h, away)) (λ e. ground (arith, e, h, away)) in
        ground (arith, (v.squares s hs).placed, empty)
  ]

  look-do_castling : look (do_castling b king_dst rook_src rook_dst) s ≡ (record (look b s) {
    ours =
        rook_dst == s
        || king_dst == s
        || (not (rook_src == s) && not (b.our_king == s) && (look b s).ours);
    rook_like = rook_dst == s || (not (rook_src == s) && (look b s).rook_like);
    pawn_like = (look b s).pawn_like && inner s;
  })
  unfolding do_castling look
  look-do_castling = ground (
    arith,
    testbit-set (set (reset (reset b.our_pieces b.our_king) rook_src) king_dst) rook_dst s
        c.rook_dst_small hs,
    testbit-set (reset (reset b.our_pieces b.our_king) rook_src) king_dst s c.king_dst_small hs,
    testbit-reset (reset b.our_pieces b.our_king) rook_src s c.rook_src_small hs,
    testbit-reset b.our_pieces b.our_king s v.our_king_small hs,
    testbit-set (reset b.rooks_and_queens rook_src) rook_dst s c.rook_dst_small hs,
    testbit-reset b.rooks_and_queens rook_src s c.rook_src_small hs,
    testbit-bit_and s b.pawns_and_flags pawn_mask,
    testbit-pawn_mask s hs,
  )

  pub do_castling-castles :
      piece_at (do_castling b king_dst rook_src rook_dst) s
      ≡ piece_castled b king_dst rook_src rook_dst s
  unfolding do_castling piece_castled piece_at kind_at kind_of look
  do_castling-castles =
      ground (arith, look-do_castling, clear_source, clear_destinations, c.dsts_apart)

  castled-IsPlaced :
      IsPlaced
        (look (do_castling b king_dst rook_src rook_dst) s)
        (inner s)
        (king_dst == s || b.their_king == s)
  castled-IsPlaced =
      let here = v.squares s hs in
      record {
        apart = ground (arith, look-do_castling, clear_destinations, here.apart);
        placed = ground (arith, look-do_castling, clear_source, here.placed);
        pawn_plain = ground (arith, look-do_castling, clear_destinations, here.pawn_plain);
        king_plain =
            ground (
              arith, look-do_castling, clear_destinations, here.king_plain, c.dsts_apart, king_rook,
            );
      }

module _ (b : ChessBoard) (king_dst rook_src rook_dst : ℕ) (v : IsValid b)
    (c : CanCastle b king_dst rook_src rook_dst) where
  castled-Words : Words (do_castling b king_dst rook_src rook_dst)
  unfolding do_castling
  castled-Words = record {
    ours_u64 = set-IsU64 _ rook_dst (
        set-IsU64 _ king_dst
          (reset-IsU64 _ rook_src (reset-IsU64 b.our_pieces b.our_king v.words.ours_u64)));
    theirs_u64 = v.words.theirs_u64;
    rooks_u64 = set-IsU64 _ rook_dst (reset-IsU64 b.rooks_and_queens rook_src v.words.rooks_u64);
    bishops_u64 = v.words.bishops_u64;
    pawns_u64 = bit_and-IsU64 b.pawns_and_flags pawn_mask v.words.pawns_u64;
  }

  castled_kings :
      ((do_castling b king_dst rook_src rook_dst).our_king ≡ king_dst)
      × ((do_castling b king_dst rook_src rook_dst).their_king ≡ b.their_king)
  unfolding do_castling
  castled_kings = (refl, refl)

  castled_flags :
      (f : ℕ)
      → f < 8
      → (look (do_castling b king_dst rook_src rook_dst) f).pawn_like ≡ true
      → ((look (do_castling b king_dst rook_src rook_dst) (24 + f)).ours ≡ true)
        × ((look (do_castling b king_dst rook_src rook_dst) (24 + f)).pawn_like ≡ true)
  castled_flags f hf h =
      ground (arith, look-do_castling b king_dst rook_src rook_dst v c f (omega arith))

  pub do_castling-IsSettled : IsSettled (do_castling b king_dst rook_src rook_dst)
  do_castling-IsSettled =
      let kings = castled_kings in
      IsSettled-at (do_castling b king_dst rook_src rook_dst) king_dst b.their_king kings.0 kings.1
        castled-Words c.king_dst_small v.their_king_small
        (ground (
          arith,
          look-do_castling b king_dst rook_src rook_dst v c king_dst c.king_dst_small,
          ==_refl king_dst,
        ))
        (ground (
          arith,
          look-do_castling b king_dst rook_src rook_dst v c b.their_king v.their_king_small,
          v.their_king_theirs,
        ))
        (castled-IsPlaced b king_dst rook_src rook_dst v c) castled_flags
