-- ===== src/Chess/Move.antt =====
-- Move of src/chess/bitboard.h and src/chess/bitboard.cc: a move packed into a `uint16_t`.
pub mod Fields
pub mod Text
pub mod Network
use fat_fritz.Common.{
  ℕ, ◌+◌, ◌-◌, ◌*◌, ◌/◌, ◌%◌, ◌^◌, bit_and, bit_or, bit_xor, Bool, true, false, not, ◌||◌, ◌==◌,
  List, [], ◌∷◌, ◌++◌, if◌then◌else◌, Option, none, some,
}
use fat_fritz.Chess.Square.{BoardSquare, square_at, square_of, of_name, row, col}
use fat_fritz.Chess.Square

-- Move::Promotion, with the numbers of the `enum`.
pub data Promotion : Type 0 where
  no_promotion queen rook bishop knight : Promotion

abbrev pub promotion_code : Promotion → ℕ
promotion_code no_promotion = 0
promotion_code queen = 1
promotion_code rook = 2
promotion_code bishop = 3
promotion_code knight = 4

-- The cast back; codes above 4 name no enumerator and are read as no promotion.
abbrev pub promotion_of : ℕ → Promotion
promotion_of n =
    if n == 1
    then queen
    else if n == 2
    then rook
    else if n == 3
    then bishop
    else if n == 4
    then knight
    else no_promotion

-- The 16 bits of `data_`: `to` in bits 0 to 5, `from` in 6 to 11, the promotion in 12 to 14.
abbrev pub Move : Type 0
Move = ℕ

abbrev to_mask : ℕ
to_mask = 0b0000000000111111

abbrev from_mask : ℕ
from_mask = 0b0000111111000000

abbrev promo_mask : ℕ
promo_mask = 0b0111000000000000

-- Move(from, to).
unfoldable pub move : BoardSquare → BoardSquare → Move
move from to = (to + from * 2 ^ 6) % 2 ^ 16

-- Move(from, to, promotion).
unfoldable pub promoting : BoardSquare → BoardSquare → Promotion → Move
promoting from to promotion = (to + from * 2 ^ 6 + promotion_code promotion * 2 ^ 12) % 2 ^ 16

unfoldable pub to : Move → BoardSquare
to m = bit_and m to_mask

unfoldable pub from : Move → BoardSquare
from m = bit_and m from_mask / 2 ^ 6

unfoldable pub promotion : Move → Promotion
promotion m = promotion_of (bit_and m promo_mask / 2 ^ 12)

-- `~mask` on the 16 bits that are kept.
abbrev not16 : ℕ → ℕ
not16 mask = 2 ^ 16 - 1 - mask

unfoldable pub set_to : Move → BoardSquare → Move
set_to m sq = bit_or (bit_and m (not16 to_mask)) sq

unfoldable pub set_from : Move → BoardSquare → Move
set_from m sq = bit_or (bit_and m (not16 from_mask)) (sq * 2 ^ 6) % 2 ^ 16

unfoldable pub set_promotion : Move → Promotion → Move
set_promotion m p = bit_or (bit_and m (not16 promo_mask)) (promotion_code p * 2 ^ 12) % 2 ^ 16

-- Mirror().
unfoldable pub mirror : Move → Move
mirror m = bit_xor m 0b111000111000

abbrev suffix : Promotion → List ℕ
suffix no_promotion = []
suffix queen = b'q' ∷ []
suffix rook = b'r' ∷ []
suffix bishop = b'b' ∷ []
suffix knight = b'n' ∷ []

-- as_string().
unfoldable pub as_string : Move → List ℕ
as_string m = Square.as_string (from m) ++ Square.as_string (to m) ++ suffix (promotion m)

-- The promotion that the fifth character of a move names, in either case.
abbrev promotion_letter : ℕ → Option Promotion
promotion_letter c =
    if c == b'q' || c == b'Q'
    then some queen
    else if c == b'r' || c == b'R'
    then some rook
    else if c == b'b' || c == b'B'
    then some bishop
    else if c == b'n' || c == b'N'
    then some knight
    else none

-- Move(str, black): `none` stands for the exception "Bad move".
unfoldable pub of_string : List ℕ → Bool → Option Move
of_string (f1 ∷ r1 ∷ f2 ∷ r2 ∷ []) black =
    some (set_to (set_from 0 (of_name f1 r1 black)) (of_name f2 r2 black))
of_string (f1 ∷ r1 ∷ f2 ∷ r2 ∷ c ∷ []) black = elim (promotion_letter c) [
  | none ↦ none
  | some p ↦
      some (set_promotion (set_to (set_from 0 (of_name f1 r1 black)) (of_name f2 r2 black)) p)
]
of_string _ black = none

-- as_packed_int(): a promotion to a knight is packed like no promotion.
unfoldable pub as_packed_int : Move → ℕ
as_packed_int m = elim (promotion m) [
  | knight ↦ (from m * 64 + to m) % 2 ^ 16
  | no_promotion ↦ (0 * 64 * 64 + from m * 64 + to m) % 2 ^ 16
  | queen ↦ (1 * 64 * 64 + from m * 64 + to m) % 2 ^ 16
  | rook ↦ (2 * 64 * 64 + from m * 64 + to m) % 2 ^ 16
  | bishop ↦ (3 * 64 * 64 + from m * 64 + to m) % 2 ^ 16
]

-- Transform(sq, transform) of bitboard.cc, with the bits of BoardTransform.
unfoldable pub transform_square : BoardSquare → ℕ → BoardSquare
transform_square sq transform =
    let flipped = if bit_and transform 1 == 0 then sq else square_of (row sq) (7 - col sq) in
    let mirrored =
      if bit_and transform 2 == 0 then flipped else square_of (7 - row flipped) (col flipped) in
    if bit_and transform 4 == 0 then mirrored else square_of (7 - col mirrored) (7 - row mirrored)
