-- ===== src/Neural/Encoder/Canonical.antt =====
-- The transform of src/neural/encoder.cc that brings a position into its canonical form.
pub mod Words
pub mod King
use fat_fritz.Common.{
  ℕ, bit_and, bit_or, Bool, true, false, not, ◌&&◌, ◌==◌, ltb, if◌then◌else◌, List, [], ◌∷◌,
}
use fat_fritz.Utils.BitIter.{reverse_bits_in_bytes, reverse_bytes_in_bytes, transpose_bits_in_bytes}
use fat_fritz.Chess.BitBoard.{BitBoard, empty}
use fat_fritz.Chess.Castlings
use fat_fritz.Chess.Board.{ChessBoard, occupied, pawns, knights, bishops, rooks, queens, kings}

-- The bits of BoardTransform.
abbrev pub flips : ℕ → Bool
flips transform = not (bit_and transform 1 == 0)

abbrev pub mirrors : ℕ → Bool
mirrors transform = not (bit_and transform 2 == 0)

abbrev pub transposes : ℕ → Bool
transposes transform = not (bit_and transform 4 == 0)

-- The transform of a word.
unfoldable pub transform_word : ℕ → ℕ → ℕ
transform_word transform v0 =
    let v1 = if flips transform then reverse_bits_in_bytes v0 else v0 in
    let v2 = if mirrors transform then reverse_bytes_in_bytes v1 else v1 in
    if transposes transform then transpose_bits_in_bytes v2 else v2

pub data Comparison : Type 0 where
  smaller same greater : Comparison

-- CompareTransposing(board, initial_transform).
unfoldable pub compare_transposing : BitBoard → ℕ → Comparison
compare_transposing board initial_transform =
    let v1 = if flips initial_transform then reverse_bits_in_bytes board else board in
    let v2 = if mirrors initial_transform then reverse_bytes_in_bytes v1 else v1 in
    let alternative = transpose_bits_in_bytes v2 in
    if ltb v2 alternative then smaller else if ltb alternative v2 then greater else same

-- The first of the boards that is not symmetrical decides.
unfoldable pub transpose_by : List BitBoard → ℕ → ℕ
transpose_by [] transform = transform
transpose_by (board ∷ boards) transform = elim (compare_transposing board transform) [
  | smaller ↦ transform
  | greater ↦ bit_or transform 4
  | same ↦ transpose_by boards transform
]

-- ChooseTransform(board).
unfoldable pub choose_transform : ChessBoard → ℕ
choose_transform b =
    let our_king0 = bit_and (kings b) b.our_pieces in
    let flip = not (bit_and our_king0 0x0F0F0F0F0F0F0F0F == 0) in
    let our_king1 = if flip then reverse_bits_in_bytes our_king0 else our_king0 in
    let mirror = not (bit_and our_king1 0xFFFFFFFF00000000 == 0) in
    let our_king2 = if mirror then reverse_bytes_in_bytes our_king1 else our_king1 in
    let flipped = if flip then 1 else 0 in
    let mirrored = if mirror then bit_or flipped 2 else flipped in
    if not (Castlings.no_legal_castle b.castlings)
    then 0
    else if not (pawns b == 0)
    then flipped
    else if not (bit_and our_king2 0xE0C08000 == 0)
    then bit_or mirrored 4
    else if not (bit_and our_king2 0x10204080 == 0)
    then transpose_by
        (occupied b ∷ b.our_pieces ∷ kings b ∷ queens b ∷ rooks b ∷ knights b ∷ bishops b ∷ [])
        mirrored
    else mirrored
