-- ===== src/Utils/BitIter/Stages.antt =====
-- One stage of a board transform: masked parts of a word, shifted and joined.
use fat_fritz.Common.{
  ℕ, ◌+◌, ◌-◌, ◌<◌, bit_and, bit_or, if◌then◌else◌, ◌==◌, leb, Bool, true, not, ◌&&◌, ◌≡◌, arith,
  all_below, all_below_sound,
}
use fat_fritz.Bits.{
  testbit, testbit-bit_and, testbit-bit_or, testbit-shl64, testbit-shr64, shl64, shr64, IsU64,
  shl64-IsU64, shr64-IsU64, bit_and-IsU64, bit_or-IsU64,
}

-- One stage: `up` moves up by `k`, `down` moves down by `k`, and `stay` does not move.
unfoldable pub stage : ℕ → ℕ → ℕ → ℕ → ℕ → ℕ
stage v k up down stay =
    bit_or (bit_or (shr64 (bit_and v down) k) (shl64 (bit_and v up) k)) (bit_and v stay)

-- Exactly one of the masks brings a digit to place `i`, and it brings it from `f i`.
unfoldable pub moves_to : (k up down stay : ℕ) (f : ℕ → ℕ) → ℕ → Bool
moves_to k up down stay f i =
    if testbit stay i
    then not (leb k i && testbit up (i - k)) && not (testbit down (i + k)) && f i == i
    else if leb k i && testbit up (i - k)
    then not (testbit down (i + k)) && f i == i - k
    else testbit down (i + k) && f i == i + k

pub testbit-stage :
    (k up down stay : ℕ) (f : ℕ → ℕ)
    → all_below 64 (moves_to k up down stay f) ≡ true
    → (v i : ℕ) → i < 64
    → testbit (stage v k up down stay) i ≡ testbit v (f i)
unfolding stage moves_to
testbit-stage k up down stay f table v i h = ground (
  arith,
  all_below_sound 64 _ i table h,
  testbit-bit_or i (bit_or (shr64 (bit_and v down) k) (shl64 (bit_and v up) k)) (bit_and v stay),
  testbit-bit_or i (shr64 (bit_and v down) k) (shl64 (bit_and v up) k),
  testbit-shr64 (bit_and v down) k i,
  testbit-shl64 (bit_and v up) k i h,
  testbit-bit_and (i + k) v down,
  testbit-bit_and (i - k) v up,
  testbit-bit_and i v stay,
)

-- The stages in the order in which the code writes their terms.
unfoldable pub rows_stage : ℕ → ℕ → ℕ → ℕ → ℕ
rows_stage v k up down = bit_or (shl64 (bit_and v up) k) (shr64 (bit_and v down) k)

unfoldable pub cols_stage : ℕ → ℕ → ℕ → ℕ
cols_stage v k mask = bit_or (bit_and (shr64 v k) mask) (shl64 (bit_and v mask) k)

pub rows_stage-IsU64 : (v k up down : ℕ) → IsU64 v → IsU64 (rows_stage v k up down)
unfolding rows_stage
rows_stage-IsU64 v k up down h =
    bit_or-IsU64 _ _ (shl64-IsU64 _ k) (shr64-IsU64 _ k (bit_and-IsU64 v down h))

pub cols_stage-IsU64 : (v k mask : ℕ) → IsU64 v → IsU64 (cols_stage v k mask)
unfolding cols_stage
cols_stage-IsU64 v k mask h =
    bit_or-IsU64 _ _ (bit_and-IsU64 _ mask (shr64-IsU64 v k h)) (shl64-IsU64 _ k)

pub stage-IsU64 : (v k up down stay : ℕ) → IsU64 v → IsU64 (stage v k up down stay)
unfolding stage
stage-IsU64 v k up down stay h =
    bit_or-IsU64 _ _ (bit_or-IsU64 _ _ (shr64-IsU64 _ k (bit_and-IsU64 v down h)) (shl64-IsU64 _ k))
      (bit_and-IsU64 v stay h)

-- Each place of the result is filled from one side.
unfoldable pub rows_move : (k up down : ℕ) (f : ℕ → ℕ) → ℕ → Bool
rows_move k up down f i =
    if leb k i && testbit up (i - k)
    then not (testbit down (i + k)) && f i == i - k
    else testbit down (i + k) && f i == i + k

unfoldable pub cols_move : (k mask : ℕ) (f : ℕ → ℕ) → ℕ → Bool
cols_move k mask f i =
    if leb k i && testbit mask (i - k)
    then not (testbit mask i) && f i == i - k
    else testbit mask i && f i == i + k

pub testbit-rows_stage :
    (k up down : ℕ) (f : ℕ → ℕ)
    → all_below 64 (rows_move k up down f) ≡ true
    → (v i : ℕ) → i < 64
    → testbit (rows_stage v k up down) i ≡ testbit v (f i)
unfolding rows_stage rows_move
testbit-rows_stage k up down f table v i h = ground (
  arith,
  all_below_sound 64 _ i table h,
  testbit-bit_or i (shl64 (bit_and v up) k) (shr64 (bit_and v down) k),
  testbit-shr64 (bit_and v down) k i,
  testbit-shl64 (bit_and v up) k i h,
  testbit-bit_and (i + k) v down,
  testbit-bit_and (i - k) v up,
)

pub testbit-cols_stage :
    (k mask : ℕ) (f : ℕ → ℕ)
    → all_below 64 (cols_move k mask f) ≡ true
    → (v i : ℕ) → i < 64
    → testbit (cols_stage v k mask) i ≡ testbit v (f i)
unfolding cols_stage cols_move
testbit-cols_stage k mask f table v i h = ground (
  arith,
  all_below_sound 64 _ i table h,
  testbit-bit_or i (bit_and (shr64 v k) mask) (shl64 (bit_and v mask) k),
  testbit-shr64 v k i,
  testbit-shl64 (bit_and v mask) k i h,
  testbit-bit_and i (shr64 v k) mask,
  testbit-bit_and (i - k) v mask,
)
