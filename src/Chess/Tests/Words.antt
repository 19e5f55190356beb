-- ===== src/Chess/Tests/Words.antt =====
-- Words of 64 bits and the loops over them.
use fat_fritz.Common.{◌≡◌, arith}
use fat_fritz.Bits.{testbit}
use fat_fritz.Utils.BitIter.{transpose_bits_in_bytes, iterate_bits}
use fat_fritz.Utils.BitIter.Transforms.{transposed, testbit-transpose_bits_in_bytes}
use fat_fritz.Utils.BitIter.Iterate.{ones, iterate_bits-ones}

testbit-transpose_bits_in_bytes_example :
    testbit (transpose_bits_in_bytes 0xFF12) 47 ≡ testbit 0xFF12 (transposed 47)
testbit-transpose_bits_in_bytes_example = testbit-transpose_bits_in_bytes 0xFF12 47 (omega arith)

iterate_bits-ones_example : iterate_bits 0x8021 ≡ ones 64 0x8021
iterate_bits-ones_example = iterate_bits-ones 0x8021 (omega arith)
