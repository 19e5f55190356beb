-- ===== src/Chess/Board/Mirror.antt =====
-- ChessBoard::Mirror: the board seen from the other side.
use fat_fritz.Common.{
  ℕ, Option, none, some, ◌+◌, ◌<◌, true, ◌||◌, ◌==◌, ◌≡◌, refl, ap, subst, sym, ◌∙◌, arith,
  all_below, all_below_sound,
}
use fat_fritz.Utils.BitIter.Transforms.{
  flip_row, testbit-reverse_bytes_in_bytes, reverse_bytes_in_bytes-IsU64, transforms_involutive,
}
use fat_fritz.Chess.Square
use fat_fritz.Chess.Castlings.{Castlings}
use fat_fritz.Chess.Castlings
use fat_fritz.Chess.Board.{ChessBoard, mirror}
use fat_fritz.Chess.Board.Look.{
  Side, us, them, Kind, kind_of, kind_at, piece_at, Look, look, Words, inner,
}
use fat_fritz.Chess.Board.Valid.{IsValid, IsPlaced, IsSettled}

mirror_table : all_below 64 (λ s. Square.mirror s == flip_row s) ≡ true
unfolding all_below
mirror_table = refl

pub mirror_square : (s : ℕ) → s < 64 → Square.mirror s ≡ flip_row s
mirror_square s h = ground (arith, all_below_sound 64 _ s mirror_table h)

-- The sides change places.
abbrev pub swap_look : Look → Look
swap_look l = record {
  ours = l.theirs;
  theirs = l.ours;
  rook_like = l.rook_like;
  bishop_like = l.bishop_like;
  pawn_like = l.pawn_like;
}

module _ (b : ChessBoard) (s : ℕ) (hs : s < 64) where
  pub look-mirror : look (mirror b) s ≡ swap_look (look b (flip_row s))
  unfolding look mirror
  look-mirror = ground (
    arith,
    testbit-reverse_bytes_in_bytes b.our_pieces s hs,
    testbit-reverse_bytes_in_bytes b.their_pieces s hs,
    testbit-reverse_bytes_in_bytes b.rooks_and_queens s hs,
    testbit-reverse_bytes_in_bytes b.bishops_and_queens s hs,
    testbit-reverse_bytes_in_bytes b.pawns_and_flags s hs,
  )

pub mirror-Words : (b : ChessBoard) → Words b → Words (mirror b)
unfolding mirror
mirror-Words b w = record {
  ours_u64 = reverse_bytes_in_bytes-IsU64 b.their_pieces w.theirs_u64;
  theirs_u64 = reverse_bytes_in_bytes-IsU64 b.our_pieces w.ours_u64;
  rooks_u64 = reverse_bytes_in_bytes-IsU64 b.rooks_and_queens w.rooks_u64;
  bishops_u64 = reverse_bytes_in_bytes-IsU64 b.bishops_and_queens w.bishops_u64;
  pawns_u64 = reverse_bytes_in_bytes-IsU64 b.pawns_and_flags w.pawns_u64;
}

module _ (b : ChessBoard) (k : IsSettled b) where
  mirror_kings :
      ((mirror b).our_king ≡ flip_row b.their_king) × ((mirror b).their_king ≡ flip_row b.our_king)
  unfolding mirror
  mirror_kings =
      (mirror_square b.their_king k.their_king_small, mirror_square b.our_king k.our_king_small)

  module _ (s : ℕ) (hs : s < 64) where
    mirror-IsPlaced :
        IsPlaced
          (look (mirror b) s)
          (inner s)
          (flip_row b.their_king == s || flip_row b.our_king == s)
    mirror-IsPlaced =
        let there = k.squares (flip_row s) (omega arith) in
        let shown = look-mirror b s hs in
        let kings : (flip_row b.their_king == s || flip_row b.our_king == s)
            ≡ (b.our_king == flip_row s || b.their_king == flip_row s) =
          ground (arith, k.our_king_small, k.their_king_small) in
        let middle : inner s ≡ inner (flip_row s) = ground arith in
        record {
          apart = ground (arith, shown, there.apart);
          placed = ground (arith, shown, there.placed, middle);
          pawn_plain = ground (arith, shown, there.pawn_plain, middle);
          king_plain = ground (arith, shown, there.king_plain, middle, kings);
        }

  mirror_flags :
      (c : ℕ)
      → c < 8
      → (look (mirror b) (56 + c)).pawn_like ≡ true
      → ((look (mirror b) (32 + c)).theirs ≡ true) × ((look (mirror b) (32 + c)).pawn_like ≡ true)
  unfolding look
  mirror_flags c hc h =
      let at_flag = ap (look b) {x = flip_row (56 + c)} {y = c} (omega arith) in
      let at_pawn = ap (look b) {x = flip_row (32 + c)} {y = 24 + c} (omega arith) in
      let flag = look-mirror b (56 + c) (omega arith) in
      let pawn = look-mirror b (32 + c) (omega arith) in
      ground (arith, flag, pawn, at_flag, at_pawn, k.our_flags c hc)

  mirror_their_king : (look (mirror b) (mirror b).their_king).theirs ≡ true
  mirror_their_king =
      let at_king =
        ap (look b) {x = flip_row (flip_row b.our_king)} {y = b.our_king}
          (ground (arith, k.our_king_small)) in
      let shown = look-mirror b (flip_row b.our_king) (ground (arith, k.our_king_small)) in
      subst (λ x. (look (mirror b) x).theirs ≡ true) (sym mirror_kings.1)
        (ap (λ l. l.theirs) shown ∙ ap (λ l. l.ours) at_king ∙ k.our_king_ours)

  mirror_our_king : (look (mirror b) (mirror b).our_king).ours ≡ true
  mirror_our_king =
      let at_king =
        ap (look b) {x = flip_row (flip_row b.their_king)} {y = b.their_king}
          (ground (arith, k.their_king_small)) in
      let shown = look-mirror b (flip_row b.their_king) (ground (arith, k.their_king_small)) in
      subst (λ x. (look (mirror b) x).ours ≡ true) (sym mirror_kings.0)
        (ap (λ l. l.ours) shown ∙ ap (λ l. l.theirs) at_king ∙ k.their_king_theirs)

  -- A settled board, as ApplyMove leaves it with the flags of our double steps on our first rank,
  -- is valid when seen from the other side.
  pub mirror-IsValid : IsValid (mirror b)
  mirror-IsValid = record {
    words = mirror-Words b k.words;
    our_king_small = ground (arith, mirror_kings, k.their_king_small);
    their_king_small = ground (arith, mirror_kings, k.our_king_small);
    our_king_ours = mirror_our_king;
    their_king_theirs = mirror_their_king;
    squares = λ s hs.
        subst (λ x. IsPlaced (look (mirror b) s) (inner s) (x == s || (mirror b).their_king == s))
          (sym mirror_kings.0)
          (subst
            (λ x. IsPlaced (look (mirror b) s) (inner s) (flip_row b.their_king == s || x == s))
            (sym mirror_kings.1) (mirror-IsPlaced s hs));
    their_flags = mirror_flags;
  }

rights_table :
    all_below 16 (λ r.
      (Castlings.mirror
        (Castlings.mirror (record { queenside_rook = 0; kingside_rook = 0; rights = r }))).rights
      == r)
    ≡ true
unfolding all_below Castlings.mirror
rights_table = refl

mirror_rights :
    (c : Castlings) → c.rights < 16 → (Castlings.mirror (Castlings.mirror c)).rights ≡ c.rights
unfolding Castlings.mirror
mirror_rights c h = ground (arith, all_below_sound 16 _ c.rights rights_table h)

-- Turning the board twice gives it back, when its five words have 64 bits, its kings are on the
-- board and its castling rights have four bits.
pub mirror_twice :
    (b : ChessBoard)
    → Words b
    → b.our_king < 64
    → b.their_king < 64
    → b.castlings.rights < 16
    → mirror (mirror b) ≡ b
unfolding mirror Castlings.mirror
mirror_twice b w hk ht hr = ground (
  arith,
  (transforms_involutive b.our_pieces w.ours_u64).0,
  (transforms_involutive b.their_pieces w.theirs_u64).0,
  (transforms_involutive b.rooks_and_queens w.rooks_u64).0,
  (transforms_involutive b.bishops_and_queens w.bishops_u64).0,
  (transforms_involutive b.pawns_and_flags w.pawns_u64).0,
  mirror_square b.our_king hk,
  mirror_square b.their_king ht,
  mirror_square (flip_row b.our_king) (omega arith),
  mirror_square (flip_row b.their_king) (omega arith),
  mirror_rights b.castlings hr,
)

abbrev swap_side : Side → Side
swap_side us = them
swap_side them = us

-- A piece of the other side.
abbrev pub swap_piece : Option (Side × Kind) → Option (Side × Kind)
swap_piece none = none
swap_piece (some (side, k)) = some (swap_side side, k)

-- On a valid board the mirrored board shows at each square the piece of the square with the row
-- turned over, of the other side.
pub piece_at-mirror :
    (b : ChessBoard) (s : ℕ)
    → IsValid b
    → s < 64
    → piece_at (mirror b) s ≡ swap_piece (piece_at b (flip_row s))
unfolding piece_at kind_at kind_of look mirror
piece_at-mirror b s v hs = ground (
  arith,
  look-mirror b s hs,
  mirror_square b.our_king v.our_king_small,
  mirror_square b.their_king v.their_king_small,
  v.our_king_small,
  v.their_king_small,
  (v.squares (flip_row s) (omega arith)).apart,
)
