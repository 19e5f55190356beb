-- ===== src/Utils/BitIter.antt =====
-- src/utils/bititer.h: the lowest set bit, the iterator over set bits, and the board transforms.
pub mod Iterate
pub mod Stages
pub mod Transforms
use fat_fritz.Common.{
  ℕ, zero, suc, ◌+◌, ◌-◌, ◌%◌, ◌/◌, bit_and, bit_or, if◌then◌else◌, ◌==◌, List, [], ◌∷◌,
}
use fat_fritz.Bits.{shl64, shr64}

-- `__builtin_ctzll`: the place of the lowest 1 among the digits that the fuel allows to look at.
unfoldable pub count_trailing_zeros : ℕ → ℕ → ℕ
count_trailing_zeros zero v = 0
count_trailing_zeros (suc fuel) v =
    let rest = suc (count_trailing_zeros fuel (v / 2)) in if v % 2 == 1 then 0 else rest

-- GetLowestBit. A word has 64 digits.
unfoldable pub get_lowest_bit : ℕ → ℕ
get_lowest_bit v = count_trailing_zeros 64 v

-- BitIterator::operator++.
unfoldable pub advance : ℕ → ℕ
advance v = bit_and v (v - 1)

-- What a range-based loop from begin() to end() dereferences, in order. The fuel bounds the steps.
unfoldable pub iterate : ℕ → ℕ → List ℕ
iterate zero v = []
iterate (suc fuel) v =
    let rest = get_lowest_bit v ∷ iterate fuel (advance v) in if v == 0 then [] else rest

-- IterateBits, and the begin() and end() of BitBoard: a word has at most 64 set bits.
unfoldable pub iterate_bits : ℕ → List ℕ
iterate_bits v = iterate 64 v

-- ReverseBitsInBytes: the horizontal mirror.
unfoldable pub reverse_bits_in_bytes : ℕ → ℕ
unfolding shl64 shr64
reverse_bits_in_bytes v0 =
    let v1 =
      bit_or (bit_and (shr64 v0 1) 0x5555555555555555) (shl64 (bit_and v0 0x5555555555555555) 1) in
    let v2 =
      bit_or (bit_and (shr64 v1 2) 0x3333333333333333) (shl64 (bit_and v1 0x3333333333333333) 2) in
    bit_or (bit_and (shr64 v2 4) 0x0F0F0F0F0F0F0F0F) (shl64 (bit_and v2 0x0F0F0F0F0F0F0F0F) 4)

-- ReverseBytesInBytes: the vertical mirror.
unfoldable pub reverse_bytes_in_bytes : ℕ → ℕ
unfolding shl64 shr64
reverse_bytes_in_bytes v0 =
    let v1 =
      bit_or (shl64 (bit_and v0 0x00000000FFFFFFFF) 32)
        (shr64 (bit_and v0 0xFFFFFFFF00000000) 32) in
    let v2 =
      bit_or (shl64 (bit_and v1 0x0000FFFF0000FFFF) 16)
        (shr64 (bit_and v1 0xFFFF0000FFFF0000) 16) in
    bit_or (shl64 (bit_and v2 0x00FF00FF00FF00FF) 8) (shr64 (bit_and v2 0xFF00FF00FF00FF00) 8)

-- TransposeBitsInBytes: across the diagonal that connects bit 7 to bit 56.
unfoldable pub transpose_bits_in_bytes : ℕ → ℕ
unfolding shl64 shr64
transpose_bits_in_bytes v0 =
    let v1 =
      bit_or
        (bit_or (shr64 (bit_and v0 0xAA00AA00AA00AA00) 9) (shl64 (bit_and v0 0x0055005500550055) 9))
        (bit_and v0 0x55AA55AA55AA55AA) in
    let v2 =
      bit_or
        (bit_or (shr64 (bit_and v1 0xCCCC0000CCCC0000) 18)
          (shl64 (bit_and v1 0x0000333300003333) 18))
        (bit_and v1 0x3333CCCC3333CCCC) in
    bit_or
      (bit_or (shr64 (bit_and v2 0xF0F0F0F000000000) 36) (shl64 (bit_and v2 0x000000000F0F0F0F) 36))
      (bit_and v2 0x0F0F0F0FF0F0F0F0)
