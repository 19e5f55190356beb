-- ===== src/Neural/Encoder/Canonical/King.antt =====
-- Where the canonical form puts our king.
use fat_fritz.Common.{
  ℕ, ◌+◌, ◌<◌, bit_and, bit_or, Bool, true, false, not, ◌&&◌, ◌||◌, ◌==◌, ltb, leb, if◌then◌else◌,
  List, [], ◌∷◌, ◌≡◌, refl, arith, all_below, all_below_sound,
}
use fat_fritz.Bits.{
  shl64, testbit-bit_and, testbit-bit_or, shl64-IsU64, bit_and-IsU64, bit_or-IsU64, word_ext,
}
use fat_fritz.Utils.BitIter.{reverse_bits_in_bytes, reverse_bytes_in_bytes}
use fat_fritz.Chess.Square.{row, col}
use fat_fritz.Chess.BitBoard.{BitBoard, as_board}
use fat_fritz.Chess.BitBoard.Laws.{testbit-as_board}
use fat_fritz.Chess.Castlings
use fat_fritz.Chess.Move.{transform_square}
use fat_fritz.Chess.Board.{ChessBoard, kings, pawns, occupied, queens, rooks, knights, bishops}
use fat_fritz.Chess.Board.Look.{look}
use fat_fritz.Chess.Board.Valid.{IsValid}
use fat_fritz.Neural.Encoder.Canonical.{
  choose_transform, transpose_by, compare_transposing, smaller, same, greater,
}

-- The transform for a king without castling rights; `turned` says how the boards decide on a king
-- on the diagonal.
unfoldable choose_for : BitBoard → Bool → Bool → ℕ
choose_for our_king0 has_pawns turned =
    let flip = not (bit_and our_king0 0x0F0F0F0F0F0F0F0F == 0) in
    let our_king1 = if flip then reverse_bits_in_bytes our_king0 else our_king0 in
    let mirror = not (bit_and our_king1 0xFFFFFFFF00000000 == 0) in
    let our_king2 = if mirror then reverse_bytes_in_bytes our_king1 else our_king1 in
    let flipped = if flip then 1 else 0 in
    let mirrored = if mirror then bit_or flipped 2 else flipped in
    if has_pawns
    then flipped
    else if not (bit_and our_king2 0xE0C08000 == 0)
    then bit_or mirrored 4
    else if not (bit_and our_king2 0x10204080 == 0)
    then if turned then bit_or mirrored 4 else mirrored
    else mirrored

Turned : ℕ → ℕ → Type 0
Turned transform result =
    (turned : Bool) × (result ≡ (if turned then bit_or transform 4 else transform))

transpose_by-Turned :
    (boards : List BitBoard) (transform : ℕ) → Turned transform (transpose_by boards transform)
unfolding transpose_by Turned
transpose_by-Turned [] transform = (false, refl)
transpose_by-Turned (board ∷ boards) transform =
    elim (compare_transposing board transform)
      as (λ c. Turned transform (elim c [
        | smaller ↦ transform
        | greater ↦ bit_or transform 4
        | same ↦ transpose_by boards transform
      ])) [
        | smaller ↦ (false, refl)
        | greater ↦ (true, refl)
        | same ↦ transpose_by-Turned boards transform
      ]

choose_transform-choose_for :
    (b : ChessBoard)
    → Castlings.no_legal_castle b.castlings ≡ true
    → (turned : Bool) × (choose_transform b
        ≡ choose_for (bit_and (kings b) b.our_pieces) (not (pawns b == 0)) turned)
unfolding choose_transform choose_for Turned
choose_transform-choose_for b none_left =
    let our_king0 = bit_and (kings b) b.our_pieces in
    let flip = not (bit_and our_king0 0x0F0F0F0F0F0F0F0F == 0) in
    let our_king1 = if flip then reverse_bits_in_bytes our_king0 else our_king0 in
    let mirror = not (bit_and our_king1 0xFFFFFFFF00000000 == 0) in
    let flipped = if flip then 1 else 0 in
    let mirrored = if mirror then bit_or flipped 2 else flipped in
    let boards =
      occupied b ∷ b.our_pieces ∷ kings b ∷ queens b ∷ rooks b ∷ knights b ∷ bishops b ∷ [] in
    let (turned, e) = transpose_by-Turned boards mirrored in
    (turned, (ground (arith, none_left, e)))

-- The square of a king after the transform: on the right half, and without pawns in the lower
-- right quadrant and not above its diagonal.
unfoldable pub is_canonical_square : ℕ → Bool → Bool
is_canonical_square sq has_pawns =
    leb 4 (col sq) && ltb (col sq) 8 && (has_pawns || ltb (row sq) 4 && leb (row sq + col sq) 7)

king_table :
    all_below 64 (λ k.
      is_canonical_square (transform_square k (choose_for (as_board k) true true)) true
      && is_canonical_square (transform_square k (choose_for (as_board k) true false)) true
      && is_canonical_square (transform_square k (choose_for (as_board k) false true)) false
      && is_canonical_square (transform_square k (choose_for (as_board k) false false)) false)
    ≡ true
unfolding all_below choose_for is_canonical_square as_board shl64 reverse_bits_in_bytes
    reverse_bytes_in_bytes transform_square
king_table = refl

king_word : (b : ChessBoard) → IsValid b → bit_and (kings b) b.our_pieces ≡ as_board b.our_king
unfolding as_board look
king_word b v =
    word_ext (bit_and (kings b) b.our_pieces) (shl64 1 b.our_king)
      (bit_and-IsU64 (kings b) b.our_pieces (
        bit_or-IsU64 (shl64 1 b.our_king) (shl64 1 b.their_king) (shl64-IsU64 1 b.our_king)
          (shl64-IsU64 1 b.their_king)))
      (shl64-IsU64 1 b.our_king)
      (λ i hi. ground (
        arith,
        testbit-bit_and i (bit_or (shl64 1 b.our_king) (shl64 1 b.their_king)) b.our_pieces,
        testbit-bit_or i (shl64 1 b.our_king) (shl64 1 b.their_king),
        testbit-as_board b.our_king i v.our_king_small hi,
        testbit-as_board b.their_king i v.their_king_small hi,
        (v.squares b.their_king v.their_king_small).apart,
        v.our_king_ours,
        v.their_king_theirs,
      ))

king_square :
    (k : ℕ) (has_pawns turned : Bool)
    → k < 64
    → is_canonical_square (transform_square k (choose_for (as_board k) has_pawns turned)) has_pawns
      ≡ true
king_square k true true h = ground (arith, all_below_sound 64 _ k king_table h)
king_square k true false h = ground (arith, all_below_sound 64 _ k king_table h)
king_square k false true h = ground (arith, all_below_sound 64 _ k king_table h)
king_square k false false h = ground (arith, all_below_sound 64 _ k king_table h)

-- On a valid board without castling rights the chosen transform puts our king on the right half
-- of the board, and when no pawn is left in the lower right quarter and not above the diagonal
-- that ends in the corner h1.
pub transform_square-choose_transform :
    (b : ChessBoard)
    → IsValid b
    → Castlings.no_legal_castle b.castlings ≡ true
    → is_canonical_square (transform_square b.our_king (choose_transform b)) (not (pawns b == 0))
      ≡ true
transform_square-choose_transform b v none_left =
    let (turned, e) = choose_transform-choose_for b none_left in
    rw (e, king_word b v) (king_square b.our_king (not (pawns b == 0)) turned v.our_king_small)
