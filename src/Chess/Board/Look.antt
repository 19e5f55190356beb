-- ===== src/Chess/Board/Look.antt =====
-- The board square by square: the digits of its five words at one square, and the piece there.
use fat_fritz.Common.{
  ℕ, ◌<◌, Bool, true, ◌&&◌, ◌||◌, ◌==◌, ltb, leb, if◌then◌else◌, Option, none, some, ◌≡◌, refl,
  arith, all_below, all_below_sound,
}
use fat_fritz.Common.Bools.{bool_eq}
use fat_fritz.Bits.{testbit, IsU64}
use fat_fritz.Chess.Board.{ChessBoard, pawn_mask}

-- Whether a square is ours, theirs, and in each of the three words of kinds.
pub record Look : Type 0 where
  pub ours : Bool
  pub theirs : Bool
  pub rook_like : Bool
  pub bishop_like : Bool
  pub pawn_like : Bool

unfoldable pub look : ChessBoard → ℕ → Look
look b s = record {
  ours = testbit b.our_pieces s;
  theirs = testbit b.their_pieces s;
  rook_like = testbit b.rooks_and_queens s;
  bishop_like = testbit b.bishops_and_queens s;
  pawn_like = testbit b.pawns_and_flags s;
}

-- The five words have 64 bits.
pub record Words (b : ChessBoard) : Type 0 where
  pub ours_u64 : IsU64 b.our_pieces
  pub theirs_u64 : IsU64 b.their_pieces
  pub rooks_u64 : IsU64 b.rooks_and_queens
  pub bishops_u64 : IsU64 b.bishops_and_queens
  pub pawns_u64 : IsU64 b.pawns_and_flags

-- Ranks 2 to 7, where a pawn is a pawn and no flag.
abbrev pub inner : ℕ → Bool
inner s = leb 8 s && ltb s 56

inner_table : all_below 64 (λ s. bool_eq (testbit pawn_mask s) (inner s)) ≡ true
unfolding all_below testbit
inner_table = refl

pub testbit-pawn_mask : (s : ℕ) → s < 64 → testbit pawn_mask s ≡ inner s
testbit-pawn_mask s h = ground (arith, all_below_sound 64 _ s inner_table h)

pub data Kind : Type 0 where
  pawn knight bishop rook queen king : Kind

pub data Side : Type 0 where
  us them : Side

-- The kind of the piece that stands on a square, by the words of kinds.
unfoldable pub kind_of : Look → Bool → Bool → Kind
kind_of l is_king is_inner =
    if is_king
    then king
    else if l.pawn_like && is_inner
    then pawn
    else if l.bishop_like
    then if l.rook_like then queen else bishop
    else if l.rook_like
    then rook
    else knight

unfoldable pub kind_at : ChessBoard → ℕ → Kind
unfolding look
kind_at b s = kind_of (look b s) (b.our_king == s || b.their_king == s) (inner s)

-- The piece on a square, as DebugString reads it off the words.
unfoldable pub piece_at : ChessBoard → ℕ → Option (Side × Kind)
unfolding look
piece_at b s =
    if testbit b.our_pieces s
    then some (us, kind_at b s)
    else if testbit b.their_pieces s
    then some (them, kind_at b s)
    else none
