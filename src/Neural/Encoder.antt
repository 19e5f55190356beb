-- ===== src/Neural/Encoder.antt =====
-- The planes that src/neural/encoder.cc makes of a history.
mod Planes
pub mod Canonical
pub mod Size
pub mod Pieces
pub mod Current
pub mod Layout
use fat_fritz.Common.{
  ℕ, zero, suc, ◌+◌, ◌-◌, ◌*◌, ◌%◌, ◌^◌, min, bit_and, bit_or, Bool, true, false, not, ◌&&◌, ◌||◌,
  ◌==◌, ltb, leb, if◌then◌else◌, List, [], ◌∷◌, ◌++◌, map, Option, none, some, length,
}
use fat_fritz.Bits.{shl64}
use fat_fritz.Utils.BitIter.{
  get_lowest_bit, reverse_bits_in_bytes, reverse_bytes_in_bytes, transpose_bits_in_bytes,
}
use fat_fritz.Chess.Square.{BoardSquare}
use fat_fritz.Chess.BitBoard.{BitBoard, as_board, empty}
use fat_fritz.Chess.Castlings
use fat_fritz.Chess.Castlings.{Castlings}
use fat_fritz.Chess.Board.{
  ChessBoard, startpos_board, pawns, knights, bishops, rooks, queens, kings, en_passant,
}
use fat_fritz.Chess.Position.{Position, PositionHistory, same_board}
use fat_fritz.Neural.Encoder.Canonical.{choose_transform, transform_word}
unfoldable pub use Planes.*

pub data FillEmptyHistory : Type 0 where
  never fen_only always : FillEmptyHistory

abbrev is_never : FillEmptyHistory → Bool
is_never never = true
is_never fen_only = false
is_never always = false

abbrev is_fen_only : FillEmptyHistory → Bool
is_fen_only fen_only = true
is_fen_only never = false
is_fen_only always = false

-- Whether the loop over the history breaks before a position. `first` is the last position of the
-- game, `beyond` one before its start.
unfoldable pub breaks_before :
    FillEmptyHistory → Bool → ℕ → Position → ChessBoard → Bool → Bool → Bool
breaks_before fill stop_early rights p b first beyond =
    stop_early && not (b.castlings.rights == rights)
    || (stop_early && not first && not (empty (en_passant b)))
    || (beyond && is_never fill)
    || (beyond && is_fen_only fill && same_board p.us_board startpos_board)

-- The loop over the history from a position on, the earlier ones the latest first.
unfoldable pub history_boards :
    FillEmptyHistory
    → Bool
    → ℕ
    → ℕ
    → Position
    → List Position
    → Bool
    → Bool
    → Bool
    → List InputPlane
history_boards fill stop_early rights zero p earlier flip first beyond = []
history_boards fill stop_early rights (suc count) p [] flip first beyond =
    let b = if flip then p.them_board else p.us_board in
    let rest = history_boards fill stop_early rights count p [] flip false true in
    if breaks_before fill stop_early rights p b first beyond
    then []
    else board_planes b p.repetitions beyond
      ++ (if stop_early && p.rule50_ply == 0 then [] else rest)
history_boards fill stop_early rights (suc count) p (q ∷ qs) flip first beyond =
    let b = if flip then p.them_board else p.us_board in
    let rest = history_boards fill stop_early rights count q qs (not flip) false false in
    if breaks_before fill stop_early rights p b first beyond
    then []
    else board_planes b p.repetitions beyond
      ++ (if stop_early && p.rule50_ply == 0 then [] else rest)

-- A list of planes brought to a length by empty ones. Planes beyond that length, which the source
-- would write out of its bounds or over later planes, are kept, so that they show in the length.
unfoldable pub padded : ℕ → List InputPlane → List InputPlane
padded zero ps = ps
padded (suc n) [] = plane_of 0 ∷ padded n []
padded (suc n) (p ∷ ps) = p ∷ padded n ps

-- The transform of a mask, which a mask of all or no squares does not need.
unfoldable pub transform_plane : ℕ → InputPlane → InputPlane
transform_plane transform p =
    if p.mask == 0 || p.mask == 2 ^ 64 - 1
    then p
    else record p { mask = transform_word transform p.mask }

-- The first planes transformed.
unfoldable pub transform_first : ℕ → ℕ → List InputPlane → List InputPlane
transform_first transform zero ps = ps
transform_first transform (suc n) [] = []
transform_first transform (suc n) (p ∷ ps) =
    transform_plane transform p ∷ transform_first transform n ps

-- A function at the value, if there is one.
abbrev pub on_some : {A B : Type 0} → (A → B) → Option A → Option B
on_some g none = none
on_some g (some x) = some (g x)

module _ (f : InputFormats) (input_format : ℕ) where
  -- IsCanonicalFormat(input_format).
  abbrev pub is_canonical : Bool
  is_canonical = leb f.with_canonicalization input_format

  -- IsCanonicalArmageddonFormat(input_format).
  abbrev pub is_armageddon : Bool
  is_armageddon = input_format == f.with_armageddon

  -- IsHectopliesFormat(input_format).
  abbrev pub is_hectoplies : Bool
  is_hectoplies = leb f.with_hectoplies input_format

  -- Is960CastlingFormat(input_format).
  abbrev pub is_960_castling : Bool
  is_960_castling = leb f.with_castling_plane input_format

  -- TransformForPosition(input_format, history), of the last position.
  unfoldable pub transform_for_position : Position → ℕ
  transform_for_position last = if is_canonical then choose_transform last.us_board else 0

  -- The four planes of castling: `none` for a format that is not supported.
  unfoldable pub castling_planes : Castlings → Option (List InputPlane)
  castling_planes c =
      if input_format == f.classical_112_plane
      then some (
          all_if (Castlings.we_can_000 c)
          ∷ all_if (Castlings.we_can_00 c)
          ∷ all_if (Castlings.they_can_000 c)
          ∷ all_if (Castlings.they_can_00 c)
          ∷ [])
      else if input_format == f.with_castling_plane
          || input_format == f.with_canonicalization
          || input_format == f.with_hectoplies
          || input_format == f.with_armageddon
      then some (
          plane_of
            (castling_mask (Castlings.we_can_000 c) (Castlings.they_can_000 c) c.queenside_rook)
          ∷ plane_of
              (castling_mask (Castlings.we_can_00 c) (Castlings.they_can_00 c) c.kingside_rook)
          ∷ plane_of 0
          ∷ plane_of 0
          ∷ [])
      else none

  -- The last four planes: the flags or the side, the 50 moves counter, the side, and all ones.
  unfoldable pub aux_planes : Position → List InputPlane
  aux_planes last =
      (if is_canonical then plane_of (en_passant last.us_board) else all_if last.us_board.flipped)
      ∷ filled (if is_hectoplies then hundredths last.rule50_ply else plies last.rule50_ply)
      ∷ all_if (is_armageddon && last.us_board.flipped)
      ∷ all_if true
      ∷ []

  -- The planes and the transform, with those of castling.
  unfoldable pub encoded :
      Position → List Position → ℕ → FillEmptyHistory → List InputPlane → List InputPlane × ℕ
  encoded last earlier history_planes fill castling =
      let transform = transform_for_position last in
      let boards =
        history_boards fill is_canonical last.us_board.castlings.rights (min history_planes 8) last
          earlier false true false in
      let planes = padded 104 boards ++ castling ++ aux_planes last in
      (if transform == 0 then planes else transform_first transform 109 planes, transform)

  -- EncodePositionForNN(input_format, history, history_planes, fill_empty_history), of a history with
  -- a last position: the planes and the transform.
  unfoldable pub encode_position :
      Position → List Position → ℕ → FillEmptyHistory → Option (List InputPlane × ℕ)
  encode_position last earlier history_planes fill =
      on_some (encoded last earlier history_planes fill) (castling_planes last.us_board.castlings)
