-- ===== src/Chess/Square.antt =====
-- BoardSquare of src/chess/bitboard.h: a square as the number 8 * row + column, in a `uint8_t`.
use fat_fritz.Common.{
  ℕ, ◌+◌, ◌-◌, ◌*◌, ◌/◌, ◌%◌, bit_xor, Bool, false, ◌&&◌, ltb, List, [], ◌∷◌, if◌then◌else◌,
}
use fat_fritz.Common.Int.{ℤ, pos, negsuc, to_u8}

abbrev pub BoardSquare : Type 0
BoardSquare = ℕ

-- BoardSquare(int row, int col), and set(row, col).
abbrev pub square_at : ℤ → ℤ → BoardSquare
square_at row col = (to_u8 row * 8 + to_u8 col) % 256

-- The same for coordinates that are known not to be negative.
abbrev pub square_of : ℕ → ℕ → BoardSquare
square_of row col = (row * 8 + col) % 256

-- BoardSquare(str, black): a name such as e4. The differences of characters wrap in a `uint8_t`.
unfoldable pub of_name : ℕ → ℕ → Bool → BoardSquare
of_name file rank black =
    square_of (if black then b'8' + 256 - rank else rank + 256 - b'1') (file + 256 - b'a')

abbrev pub row : BoardSquare → ℕ
row sq = sq / 8

abbrev pub col : BoardSquare → ℕ
col sq = sq % 8

-- Mirror().
abbrev pub mirror : BoardSquare → BoardSquare
mirror sq = bit_xor sq 0b111000

abbrev pub is_valid_coord : ℤ → Bool
is_valid_coord (pos x) = ltb x 8
is_valid_coord (negsuc x) = false

-- IsValid(row, col).
abbrev pub is_valid : ℤ → ℤ → Bool
is_valid (pos r) (pos c) = ltb r 8 && ltb c 8
is_valid (pos r) (negsuc c) = false
is_valid (negsuc r) c = false

-- as_string().
unfoldable pub as_string : BoardSquare → List ℕ
as_string sq = (b'a' + col sq) ∷ (b'1' + row sq) ∷ []
