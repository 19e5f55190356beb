-- ===== src/Neural/Encoder/Canonical/Words.antt =====
-- The transform of a plane moves each square as Transform of src/chess/bitboard.cc does.
use fat_fritz.Common.{ℕ, ◌<◌, Bool, true, false, if◌then◌else◌, ◌≡◌, refl, ap, ◌∙◌, arith}
use fat_fritz.Bits.{testbit}
use fat_fritz.Utils.BitIter.{reverse_bits_in_bytes, reverse_bytes_in_bytes, transpose_bits_in_bytes}
use fat_fritz.Utils.BitIter.Transforms.{
  flip_row, flip_col, transposed, testbit-reverse_bits_in_bytes, testbit-reverse_bytes_in_bytes,
  testbit-transpose_bits_in_bytes,
}
use fat_fritz.Chess.Move.{transform_square}
use fat_fritz.Neural.Encoder.Canonical.{transform_word, flips, mirrors, transposes}

abbrev when : Bool → (ℕ → ℕ) → ℕ → ℕ
when c f x = if c then f x else x

testbit-when :
    (c : Bool) (f g : ℕ → ℕ) (v i : ℕ)
    → testbit (f v) i ≡ testbit v (g i)
    → testbit (when c f v) i ≡ testbit v (when c g i)
testbit-when true f g v i h = h
testbit-when false f g v i h = refl

transform_square-steps :
    (s t : ℕ)
    → s < 64
    → transform_square s t
      ≡ when (transposes t) transposed (when (mirrors t) flip_row (when (flips t) flip_col s))
unfolding transform_square
transform_square-steps s t h = ground arith

steps_back :
    (f m d : Bool) (s : ℕ)
    → s < 64
    → when f flip_col (
        when m flip_row
          (when d transposed (when d transposed (when m flip_row (when f flip_col s)))))
      ≡ s
steps_back f m d s h = ground arith

steps_small :
    (f m d : Bool) (s : ℕ)
    → s < 64
    → (when f flip_col s < 64)
      × (when m flip_row (when f flip_col s) < 64)
      × (when d transposed (when m flip_row (when f flip_col s)) < 64)
steps_small f m d s h = ground arith

testbit-word :
    (f m d : Bool) (v i : ℕ)
    → i < 64
    → testbit
        (when d transpose_bits_in_bytes
          (when m reverse_bytes_in_bytes (when f reverse_bits_in_bytes v)))
        i
      ≡ testbit v (when f flip_col (when m flip_row (when d transposed i)))
testbit-word f m d v i h =
    let v1 = when f reverse_bits_in_bytes v in
    let v2 = when m reverse_bytes_in_bytes v1 in
    let i1 = when d transposed i in
    let i2 = when m flip_row i1 in
    let small1 : i1 < 64 = ground arith in
    let small2 : i2 < 64 = ground arith in
    testbit-when d transpose_bits_in_bytes transposed v2 i (testbit-transpose_bits_in_bytes v2 i h)
    ∙ testbit-when m reverse_bytes_in_bytes flip_row v1 i1
        (testbit-reverse_bytes_in_bytes v1 i1 small1)
    ∙ testbit-when f reverse_bits_in_bytes flip_col v i2 (testbit-reverse_bits_in_bytes v i2 small2)

-- Transforming a plane moves the digit of each square to the square that the transform of a move,
-- Transform of the chess code, gives for it.
pub testbit-transform_word :
    (transform v s : ℕ)
    → s < 64
    → testbit (transform_word transform v) (transform_square s transform) ≡ testbit v s
unfolding transform_word
testbit-transform_word transform v s h =
    let f = flips transform in
    let m = mirrors transform in
    let d = transposes transform in
    ap (testbit (transform_word transform v)) (transform_square-steps s transform h)
    ∙ testbit-word f m d v (when d transposed (when m flip_row (when f flip_col s)))
        (steps_small f m d s h).2
    ∙ ap (testbit v) (steps_back f m d s h)
