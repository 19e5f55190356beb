-- ===== src/Utils/BitIter/Transforms.antt =====
-- Where each board transform takes a square.
use fat_fritz.Common.{
  ℕ, ◌+◌, ◌-◌, ◌*◌, ◌%◌, ◌/◌, ◌<◌, ◌==◌, ltb, true, ◌&&◌, ◌≡◌, refl, ap, ◌∙◌, arith, all_below,
  all_below_sound,
}
use fat_fritz.Bits.{testbit, word_ext, IsU64}
use fat_fritz.Utils.BitIter.{reverse_bits_in_bytes, reverse_bytes_in_bytes, transpose_bits_in_bytes}
use fat_fritz.Utils.BitIter.Stages.{
  stage, moves_to, rows_stage, cols_stage, rows_move, cols_move, testbit-stage, testbit-rows_stage,
  testbit-cols_stage, rows_stage-IsU64, cols_stage-IsU64, stage-IsU64,
}

-- The squares that the transforms exchange, by row and column.
abbrev pub flip_row : ℕ → ℕ
flip_row i = (7 - i / 8) * 8 + i % 8

abbrev pub flip_col : ℕ → ℕ
flip_col i = i / 8 * 8 + (7 - i % 8)

abbrev pub transposed : ℕ → ℕ
transposed i = (7 - i % 8) * 8 + (7 - i / 8)

flip_row_twice : (i : ℕ) → i < 64 → flip_row (flip_row i) ≡ i
flip_row_twice i h = omega arith

flip_col_twice : (i : ℕ) → i < 64 → flip_col (flip_col i) ≡ i
flip_col_twice i h = omega arith

transposed_twice : (i : ℕ) → i < 64 → transposed (transposed i) ≡ i
transposed_twice i h = omega arith

-- ReverseBytesInBytes exchanges the rows.
pub testbit-reverse_bytes_in_bytes :
    (v i : ℕ) → i < 64 → testbit (reverse_bytes_in_bytes v) i ≡ testbit v (flip_row i)
unfolding reverse_bytes_in_bytes rows_stage all_below rows_move testbit
testbit-reverse_bytes_in_bytes v i h =
    let f32 : ℕ → ℕ = λ j. (j + 32) % 64 in
    let f16 : ℕ → ℕ = λ j. j / 32 * 32 + (j + 16) % 32 in
    let f8 : ℕ → ℕ = λ j. j / 16 * 16 + (j + 8) % 16 in
    let v1 = rows_stage v 32 0x00000000FFFFFFFF 0xFFFFFFFF00000000 in
    let v2 = rows_stage v1 16 0x0000FFFF0000FFFF 0xFFFF0000FFFF0000 in
    testbit-rows_stage 8 0x00FF00FF00FF00FF 0xFF00FF00FF00FF00 f8 refl v2 i h
    ∙ testbit-rows_stage 16 0x0000FFFF0000FFFF 0xFFFF0000FFFF0000 f16 refl v1 (f8 i) (omega arith)
    ∙ testbit-rows_stage 32 0x00000000FFFFFFFF 0xFFFFFFFF00000000 f32 refl v (f16 (f8 i))
        (omega arith)
    ∙ ap (testbit v) {x = f32 (f16 (f8 i))} {y = flip_row i} (omega arith)

-- ReverseBitsInBytes exchanges the columns.
pub testbit-reverse_bits_in_bytes :
    (v i : ℕ) → i < 64 → testbit (reverse_bits_in_bytes v) i ≡ testbit v (flip_col i)
unfolding reverse_bits_in_bytes cols_stage all_below cols_move testbit
testbit-reverse_bits_in_bytes v i h =
    let f1 : ℕ → ℕ = λ j. j / 2 * 2 + (j + 1) % 2 in
    let f2 : ℕ → ℕ = λ j. j / 4 * 4 + (j + 2) % 4 in
    let f4 : ℕ → ℕ = λ j. j / 8 * 8 + (j + 4) % 8 in
    let v1 = cols_stage v 1 0x5555555555555555 in
    let v2 = cols_stage v1 2 0x3333333333333333 in
    testbit-cols_stage 4 0x0F0F0F0F0F0F0F0F f4 refl v2 i h
    ∙ testbit-cols_stage 2 0x3333333333333333 f2 refl v1 (f4 i) (omega arith)
    ∙ testbit-cols_stage 1 0x5555555555555555 f1 refl v (f2 (f4 i)) (omega arith)
    ∙ ap (testbit v) {x = f1 (f2 (f4 i))} {y = flip_col i} (omega arith)

-- Row and column exchange one binary digit at a time, with both complemented.
swap_digit : (w i : ℕ) → ℕ
swap_digit w i =
    let r = i / 8 / w % 2 in
    let c = i % 8 / w % 2 in i + (1 - c) * (8 * w) + (1 - r) * w - r * (8 * w) - c * w

-- The three exchanges in turn stay on the board, and make up the transposition.
swaps_table :
    all_below 64 (λ i.
      ltb (swap_digit 4 i) 64
      && ltb (swap_digit 2 (swap_digit 4 i)) 64
      && swap_digit 1 (swap_digit 2 (swap_digit 4 i)) == transposed i)
    ≡ true
unfolding all_below swap_digit
swaps_table = refl

swaps :
    (i : ℕ)
    → i < 64
    → (swap_digit 4 i < 64)
      × (swap_digit 2 (swap_digit 4 i) < 64)
      × (swap_digit 1 (swap_digit 2 (swap_digit 4 i)) ≡ transposed i)
swaps i h = ground (arith, all_below_sound 64 _ i swaps_table h)

-- The transposed word has at each of its 64 places the bit of the place mirrored at the diagonal
-- from a8 to h1 of the board.
pub testbit-transpose_bits_in_bytes :
    (v i : ℕ) → i < 64 → testbit (transpose_bits_in_bytes v) i ≡ testbit v (transposed i)
unfolding transpose_bits_in_bytes stage all_below moves_to testbit swap_digit
testbit-transpose_bits_in_bytes v i h =
    let v1 = stage v 9 0x0055005500550055 0xAA00AA00AA00AA00 0x55AA55AA55AA55AA in
    let v2 = stage v1 18 0x0000333300003333 0xCCCC0000CCCC0000 0x3333CCCC3333CCCC in
    testbit-stage 36 0x000000000F0F0F0F 0xF0F0F0F000000000 0x0F0F0F0FF0F0F0F0 (swap_digit 4) refl v2
      i h
    ∙ testbit-stage 18 0x0000333300003333 0xCCCC0000CCCC0000 0x3333CCCC3333CCCC (swap_digit 2) refl
        v1 (swap_digit 4 i) (swaps i h).0
    ∙ testbit-stage 9 0x0055005500550055 0xAA00AA00AA00AA00 0x55AA55AA55AA55AA (swap_digit 1) refl v
        (swap_digit 2 (swap_digit 4 i)) (swaps i h).1
    ∙ ap (testbit v) (swaps i h).2

pub reverse_bytes_in_bytes-IsU64 : (v : ℕ) → IsU64 v → IsU64 (reverse_bytes_in_bytes v)
unfolding reverse_bytes_in_bytes rows_stage
reverse_bytes_in_bytes-IsU64 v h =
    rows_stage-IsU64 _ 8 _ _
      (rows_stage-IsU64 _ 16 _ _ (rows_stage-IsU64 v 32 0x00000000FFFFFFFF 0xFFFFFFFF00000000 h))

pub reverse_bits_in_bytes-IsU64 : (v : ℕ) → IsU64 v → IsU64 (reverse_bits_in_bytes v)
unfolding reverse_bits_in_bytes cols_stage
reverse_bits_in_bytes-IsU64 v h =
    cols_stage-IsU64 _ 4 _ (cols_stage-IsU64 _ 2 _ (cols_stage-IsU64 v 1 0x5555555555555555 h))

pub transpose_bits_in_bytes-IsU64 : (v : ℕ) → IsU64 v → IsU64 (transpose_bits_in_bytes v)
unfolding transpose_bits_in_bytes stage
transpose_bits_in_bytes-IsU64 v h = stage-IsU64 _ 36 _ _ _ (
    stage-IsU64 _ 18 _ _ _
      (stage-IsU64 v 9 0x0055005500550055 0xAA00AA00AA00AA00 0x55AA55AA55AA55AA h))

-- Each of the three transforms undoes itself on every 64-bit word.
pub transforms_involutive :
    (v : ℕ)
    → IsU64 v
    → (reverse_bytes_in_bytes (reverse_bytes_in_bytes v) ≡ v)
      × (reverse_bits_in_bytes (reverse_bits_in_bytes v) ≡ v)
      × (transpose_bits_in_bytes (transpose_bits_in_bytes v) ≡ v)
transforms_involutive v h = (
  word_ext _ v (reverse_bytes_in_bytes-IsU64 _ (reverse_bytes_in_bytes-IsU64 v h)) h (λ i hi.
      testbit-reverse_bytes_in_bytes _ i hi
      ∙ testbit-reverse_bytes_in_bytes v (flip_row i) (omega arith)
      ∙ ap (testbit v) (flip_row_twice i hi)),
  word_ext _ v (reverse_bits_in_bytes-IsU64 _ (reverse_bits_in_bytes-IsU64 v h)) h (λ i hi.
      testbit-reverse_bits_in_bytes _ i hi
      ∙ testbit-reverse_bits_in_bytes v (flip_col i) (omega arith)
      ∙ ap (testbit v) (flip_col_twice i hi)),
  word_ext _ v (transpose_bits_in_bytes-IsU64 _ (transpose_bits_in_bytes-IsU64 v h)) h (λ i hi.
      testbit-transpose_bits_in_bytes _ i hi
      ∙ testbit-transpose_bits_in_bytes v (transposed i) (omega arith)
      ∙ ap (testbit v) (transposed_twice i hi)),
)
