-- ===== src/Bits/Step.antt =====
-- The native operations on digits, one digit at a time.
use Prim.Native.Nat.{bit_and-bitwise, bit_or-bitwise, bit_xor-bitwise, bitwise, digits, differ}
use fat_fritz.Common.{
  ℕ, zero, suc, ◌+◌, ◌-◌, ◌*◌, ◌/◌, ◌%◌, ◌≤◌, min, max, bit_and, bit_or, bit_xor, ◌≡◌, refl, ap,
  ◌∙◌, arith,
}

-- `rest` gives the digits that remain when the first number has run out, `f` one digit of the result.
module _ (rest : ℕ → ℕ) (f : ℕ → ℕ → ℕ) where
  one_more : (fuel x y : ℕ) → x ≤ fuel → digits rest f (suc fuel) x y ≡ digits rest f fuel x y
  one_more (suc fuel) (suc x) y h = rw (one_more fuel (suc x / 2) (y / 2) (omega arith)) refl
  one_more zero (suc x) y h = absurd (omega arith)
  one_more (suc fuel) zero y h = refl
  one_more zero zero y h = refl

  surplus :
      (extra fuel x y : ℕ) → x ≤ fuel → digits rest f (extra + fuel) x y ≡ digits rest f fuel x y
  surplus (suc extra) fuel x y h =
      ap (λ n. digits rest f n x y) {x = suc extra + fuel} {y = suc (extra + fuel)} (omega arith)
      ∙ one_more (extra + fuel) x y (omega arith)
      ∙ surplus extra fuel x y h
  surplus zero fuel x y h = ap (λ n. digits rest f n x y) {x = 0 + fuel} {y = fuel} (omega arith)

  halved :
      (x y : ℕ)
      → bitwise rest f (suc x) y ≡ f (suc x % 2) (y % 2) + 2 * bitwise rest f (suc x / 2) (y / 2)
  halved x y =
      let half = suc x / 2 in
      let split =
        ap (λ n. digits rest f n half (y / 2)) {x = x} {y = (x - half) + half} (omega arith) in
      omega (arith, split, surplus (x - half) half half (y / 2) (omega arith))

zero-differ : (y : ℕ) → differ 0 y ≡ y
zero-differ y = refl

pub differ-zero : (x : ℕ) → differ x 0 ≡ x
differ-zero zero = refl
differ-zero (suc x) = refl

pub bit_xor_step : (a b : ℕ) → bit_xor a b ≡ bit_xor (a / 2) (b / 2) * 2 + differ (a % 2) (b % 2)
bit_xor_step (suc a) b = omega (
  arith,
  halved (λ y. y) differ a b,
  bit_xor-bitwise (suc a) b,
  bit_xor-bitwise (suc a / 2) (b / 2),
)
bit_xor_step zero b =
    omega (arith, bit_xor-bitwise 0 b, bit_xor-bitwise 0 (b / 2), zero-differ (b % 2))

pub bit_or_step : (a b : ℕ) → bit_or a b ≡ bit_or (a / 2) (b / 2) * 2 + max (a % 2) (b % 2)
bit_or_step (suc a) b =
    omega
      (arith, halved (λ y. y) max a b, bit_or-bitwise (suc a) b, bit_or-bitwise (suc a / 2) (b / 2))
bit_or_step zero b = omega (arith, bit_or-bitwise 0 b, bit_or-bitwise 0 (b / 2))

pub bit_and_step : (a b : ℕ) → bit_and a b ≡ bit_and (a / 2) (b / 2) * 2 + min (a % 2) (b % 2)
bit_and_step (suc a) b =
    omega (
      arith,
      halved (λ y. 0) min a b,
      bit_and-bitwise (suc a) b,
      bit_and-bitwise (suc a / 2) (b / 2),
    )
bit_and_step zero b = omega (arith, bit_and-bitwise 0 b, bit_and-bitwise 0 (b / 2))
