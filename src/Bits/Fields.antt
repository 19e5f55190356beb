-- ===== src/Bits/Fields.antt =====
-- Fields of a word: masks, disjoint parts, and parts side by side.
use native.Mathlib.Nat.{pow-succ', one-le-pow, mul-le-mul_right, mod-le, div-mul-le_self}
use Prim.Native.Nat.{bit_or-bitwise}
use fat_fritz.Common.{
  ℕ, zero, suc, ◌+◌, ◌-◌, ◌*◌, ◌/◌, ◌%◌, ◌^◌, ◌≤◌, ◌<◌, bit_and, bit_or, bit_xor, ◌≡◌, refl, ap,
  ◌∙◌, ltb, arith,
}
use fat_fritz.Bits.Step.{bit_and_step, bit_or_step, bit_xor_step, differ-zero}
use fat_fritz.Bits.Digits.{
  testbit, testbit-bit_and, testbit-mul-pow, testbit-div-pow, testbit-mod-pow, testbit_ext,
  bit_and-lt, testbit-zero, testbit-complement, testbit_above,
}

-- Parts with no common digit are added by `|`.
pub bit_or_disjoint : (n a b : ℕ) → a < 2 ^ n → bit_and a b ≡ 0 → bit_or a b ≡ a + b
bit_or_disjoint zero zero b h e = omega (arith, bit_or-bitwise 0 b)
bit_or_disjoint zero (suc a) b h e = absurd (omega arith)
bit_or_disjoint (suc n) a b h e = omega (
  arith,
  pow-succ' 2 n,
  bit_and_step a b,
  bit_or_step a b,
  bit_or_disjoint n (a / 2) (b / 2) (omega (arith, pow-succ' 2 n))
      (omega (arith, bit_and_step a b)),
)

-- A mask and its complement split a word.
pub bit_and_complement :
    (n m mask : ℕ) → m < 2 ^ n → mask < 2 ^ n → bit_and m (2 ^ n - 1 - mask) + bit_and m mask ≡ m
bit_and_complement zero m mask h k =
    omega (arith, bit_and-lt 0 m (2 ^ 0 - 1 - mask) h, bit_and-lt 0 m mask h)
bit_and_complement (suc n) m mask h k = ground (
  arith,
  pow-succ' 2 n,
  bit_and_step m (2 ^ suc n - 1 - mask),
  bit_and_step m mask,
  bit_and_complement n (m / 2) (mask / 2) (omega (arith, pow-succ' 2 n))
      (omega (arith, pow-succ' 2 n)),
)

pub testbit-mask : (w i : ℕ) → testbit (2 ^ w - 1) i ≡ ltb i w
unfolding testbit
testbit-mask zero i = testbit-zero i ∙ ground arith
testbit-mask (suc w) zero = ground (arith, pow-succ' 2 w, one-le-pow w 2)
testbit-mask (suc w) (suc i) =
    ap (λ x. testbit x i) (omega (arith, pow-succ' 2 w)) ∙ testbit-mask w i ∙ ground arith

-- A mask of `w` ones at place `k` selects that field.
pub bit_and_field :
    (n m w k : ℕ)
    → m < 2 ^ n
    → k + w ≤ n
    → bit_and m ((2 ^ w - 1) * 2 ^ k) ≡ m / 2 ^ k % 2 ^ w * 2 ^ k
bit_and_field n m w k h fits = testbit_ext n _ _ (bit_and-lt n m _ h) below λ i hi.
    testbit-bit_and i m ((2 ^ w - 1) * 2 ^ k)
    ∙ ground (
      arith,
      testbit-mul-pow k i (2 ^ w - 1),
      testbit-mul-pow k i (m / 2 ^ k % 2 ^ w),
      testbit-mask w (i - k),
      testbit-mod-pow w (i - k) (m / 2 ^ k),
      testbit-div-pow k (i - k) m,
    )
  where
    below : m / 2 ^ k % 2 ^ w * 2 ^ k < 2 ^ n
    below =
        omega
          (arith, mul-le-mul_right (2 ^ k) (mod-le (m / 2 ^ k) (2 ^ w)), div-mul-le_self m (2 ^ k))

-- A field cleared by its mask and filled anew.
pub bit_replace_field :
    (n m w k v : ℕ)
    → m < 2 ^ n
    → k + w ≤ n
    → (2 ^ w - 1) * 2 ^ k < 2 ^ n
    → v < 2 ^ w
    → bit_or (bit_and m (2 ^ n - 1 - (2 ^ w - 1) * 2 ^ k)) (v * 2 ^ k)
      ≡ m - m / 2 ^ k % 2 ^ w * 2 ^ k + v * 2 ^ k
bit_replace_field n m w k v h fits small hv =
    bit_or_disjoint n kept (v * 2 ^ k) (bit_and-lt n m _ h) disjoint
    ∙ omega (arith, bit_and_complement n m mask h small, bit_and_field n m w k h fits)
  where
    mask : ℕ
    mask = (2 ^ w - 1) * 2 ^ k

    kept : ℕ
    kept = bit_and m (2 ^ n - 1 - mask)

    disjoint : bit_and kept (v * 2 ^ k) ≡ 0
    disjoint =
        testbit_ext n _ 0 (bit_and-lt n kept _ (bit_and-lt n m _ h)) (one-le-pow n 2 (omega arith))
          λ i hi.
            testbit-bit_and i kept (v * 2 ^ k)
            ∙ ground (
              arith,
              testbit-bit_and i m (2 ^ n - 1 - mask),
              testbit-complement n i mask small hi,
              testbit-mul-pow k i (2 ^ w - 1),
              testbit-mul-pow k i v,
              testbit-mask w (i - k),
              testbit_above w (i - k) v hv,
              testbit-zero i,
            )

xor_nothing : (n a : ℕ) → a ≤ n → bit_xor a 0 ≡ a
xor_nothing n zero h = refl
xor_nothing zero (suc a) h = absurd (omega arith)
xor_nothing (suc n) (suc a) h =
    bit_xor_step (suc a) 0
    ∙ rw (differ-zero (suc a % 2)) (omega (arith, xor_nothing n (suc a / 2) (omega arith)))

pub bit_xor-zero : (a : ℕ) → bit_xor a 0 ≡ a
bit_xor-zero a = xor_nothing a a (omega arith)

-- Two halves that stand side by side are combined apart.
pub bit_xor_fields :
    (k a b c d : ℕ)
    → b < 2 ^ k
    → d < 2 ^ k
    → bit_xor (a * 2 ^ k + b) (c * 2 ^ k + d) ≡ bit_xor a c * 2 ^ k + bit_xor b d
bit_xor_fields zero a zero c zero hb hd = ground arith
bit_xor_fields zero a zero c (suc d) hb hd = absurd (omega arith)
bit_xor_fields zero a (suc b) c d hb hd = absurd (omega arith)
bit_xor_fields (suc k) a b c d hb hd = ground (
  arith,
  pow-succ' 2 k,
  ap (λ (t : ℕ). a * t) (pow-succ' 2 k),
  ap (λ (t : ℕ). c * t) (pow-succ' 2 k),
  ap (λ (t : ℕ). bit_xor a c * t) (pow-succ' 2 k),
  bit_xor_step (a * 2 ^ suc k + b) (c * 2 ^ suc k + d),
  bit_xor_step b d,
  bit_xor_fields k a (b / 2) c (d / 2) (omega (arith, pow-succ' 2 k))
      (omega (arith, pow-succ' 2 k)),
)
