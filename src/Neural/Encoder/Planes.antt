-- ===== src/Neural/Encoder/Planes.antt =====
-- The planes of one board in src/neural/encoder.cc, and InputPlane of src/neural/network.h.
use fat_fritz.Common.{
  ℕ, ◌+◌, ◌-◌, ◌%◌, ◌^◌, bit_and, bit_or, Bool, not, ◌&&◌, ltb, leb, if◌then◌else◌, List, [], ◌∷◌,
}
use fat_fritz.Bits.{shl64}
use fat_fritz.Utils.BitIter.{get_lowest_bit}
use fat_fritz.Chess.BitBoard.{BitBoard, as_board, empty}
use fat_fritz.Chess.Board.{ChessBoard, pawns, knights, bishops, rooks, queens, kings, en_passant}

-- The input formats of net.proto, which the build makes numbers of.
pub record InputFormats : Type 0 where
  pub classical_112_plane : ℕ
  pub with_castling_plane : ℕ
  pub with_canonicalization : ℕ
  pub with_hectoplies : ℕ
  pub with_armageddon : ℕ

-- The floating point values that a plane can have.
pub data PlaneValue : Type 0 where
  one : PlaneValue
  plies : ℕ → PlaneValue
  hundredths : ℕ → PlaneValue

pub record InputPlane : Type 0 where
  pub mask : ℕ
  pub value : PlaneValue

abbrev pub plane_of : ℕ → InputPlane
plane_of mask = record { mask = mask; value = one }

-- SetAll() of a plane that is still empty, on a condition.
abbrev pub all_if : Bool → InputPlane
all_if cond = plane_of (if cond then 2 ^ 64 - 1 else 0)

-- Fill(val).
abbrev pub filled : PlaneValue → InputPlane
filled v = record { mask = 2 ^ 64 - 1; value = v }

-- The castling plane of one side of the board.
unfoldable pub castling_mask : Bool → Bool → ℕ → ℕ
castling_mask ours theirs file =
    shl64 (bit_or (if ours then as_board 0 else 0) (if theirs then as_board 56 else 0)) file

-- The undoing of the double step that an en passant flag stands for, in 64 bits.
unfoldable pub undo_ours : BitBoard → ℕ
undo_ours flags =
    let idx = get_lowest_bit flags in
    if ltb idx 8 then shl64 (2 ^ 64 + 0x0000000000000100 - 0x0000000001000000) idx else 0

unfoldable pub undo_theirs : BitBoard → ℕ
undo_theirs flags =
    let idx = get_lowest_bit flags in
    if ltb idx 8 then 0 else shl64 (0x0001000000000000 + (2 ^ 64 - 0x0000000100000000)) (idx - 56)

-- The 13 planes of one board; `undo` says that the history does not go back that far.
unfoldable pub board_planes : ChessBoard → ℕ → Bool → List InputPlane
board_planes b repetitions undo =
    let undoing = undo && not (empty (en_passant b)) in
    let our_pawns = bit_and b.our_pieces (pawns b) in
    let their_pawns = bit_and b.their_pieces (pawns b) in
    plane_of (if undoing then (our_pawns + undo_ours (en_passant b)) % 2 ^ 64 else our_pawns)
    ∷ plane_of (bit_and b.our_pieces (knights b))
    ∷ plane_of (bit_and b.our_pieces (bishops b))
    ∷ plane_of (bit_and b.our_pieces (rooks b))
    ∷ plane_of (bit_and b.our_pieces (queens b))
    ∷ plane_of (bit_and b.our_pieces (kings b))
    ∷ plane_of
        (if undoing then (their_pawns + undo_theirs (en_passant b)) % 2 ^ 64 else their_pawns)
    ∷ plane_of (bit_and b.their_pieces (knights b))
    ∷ plane_of (bit_and b.their_pieces (bishops b))
    ∷ plane_of (bit_and b.their_pieces (rooks b))
    ∷ plane_of (bit_and b.their_pieces (queens b))
    ∷ plane_of (bit_and b.their_pieces (kings b))
    ∷ all_if (leb 1 repetitions)
    ∷ []
