-- ===== src/Bits/Digits.antt =====
-- The digit at a place, and the laws of the operations by digits.
use native.Mathlib.Nat.{
  pow-suc, pow-succ', one-le-pow, div-div-eq-div-mul, div-one, add-zero, div-add-mod,
  mul-add-mod_self_left, mod-eq_of_lt, mod-lt,
}
use Prim.Native.Nat.{bit_and-bitwise}
use fat_fritz.Common.{
  ℕ, zero, suc, ◌+◌, ◌-◌, ◌*◌, ◌/◌, ◌%◌, ◌^◌, ◌≤◌, ◌<◌, bit_and, bit_or, ◌≡◌, refl, ap, sym, ◌∙◌,
  Bool, false, not, ◌&&◌, ◌||◌, ◌==◌, ltb, leb, arith,
}
use fat_fritz.Bits.Step.{bit_and_step, bit_or_step}

-- Whether digit `i` of `a` is 1, the lowest being digit 0.
unfoldable pub testbit : ℕ → ℕ → Bool
testbit a zero = a % 2 == 1
testbit a (suc i) = testbit (a / 2) i

pub testbit-bit_and : (i a b : ℕ) → testbit (bit_and a b) i ≡ (testbit a i && testbit b i)
unfolding testbit
testbit-bit_and zero a b = ground (arith, bit_and_step a b)
testbit-bit_and (suc i) a b =
    ap (λ x. testbit x i) (omega (arith, bit_and_step a b)) ∙ testbit-bit_and i (a / 2) (b / 2)

pub testbit-bit_or : (i a b : ℕ) → testbit (bit_or a b) i ≡ (testbit a i || testbit b i)
unfolding testbit
testbit-bit_or zero a b = ground (arith, bit_or_step a b)
testbit-bit_or (suc i) a b =
    ap (λ x. testbit x i) (omega (arith, bit_or_step a b)) ∙ testbit-bit_or i (a / 2) (b / 2)

pub testbit-zero : (i : ℕ) → testbit 0 i ≡ false
unfolding testbit
testbit-zero zero = refl
testbit-zero (suc i) = testbit-zero i

-- A left shift by `k` moves every digit up.
pub testbit-mul-pow : (k i a : ℕ) → testbit (a * 2 ^ k) i ≡ (leb k i && testbit a (i - k))
unfolding testbit
testbit-mul-pow zero i a = ground arith
testbit-mul-pow (suc k) zero a = ground (arith, pow-suc 2 k, ap (λ (t : ℕ). a * t) (pow-suc 2 k))
testbit-mul-pow (suc k) (suc i) a =
    ap (λ x. testbit x i) (omega (arith, ap (λ (t : ℕ). a * t) (pow-suc 2 k)))
    ∙ testbit-mul-pow k i a
    ∙ ground arith

-- A right shift by `k` moves every digit down.
pub testbit-div-pow : (k i a : ℕ) → testbit (a / 2 ^ k) i ≡ testbit a (i + k)
unfolding testbit
testbit-div-pow zero i a = rw (div-one a) (ap (testbit a) (sym (add-zero i)))
testbit-div-pow (suc k) i a =
    ap (λ x. testbit x i) (ap (λ t. a / t) (pow-succ' 2 k) ∙ sym (div-div-eq-div-mul a 2 (2 ^ k)))
    ∙ testbit-div-pow k i (a / 2)
    ∙ ap (testbit a) {x = suc (i + k)} {y = i + suc k} (omega arith)

-- One digit of a remainder by twice `m`, and the rest.
mod_double : (a m : ℕ) → 0 < m → (a % (2 * m) / 2 ≡ a / 2 % m) × (a % (2 * m) % 2 ≡ a % 2)
mod_double a m h = omega (arith, whole)
  where
    rest : ℕ
    rest = 2 * (a / 2 % m) + a % 2

    split : a ≡ 2 * m * (a / 2 / m) + rest
    split = omega (arith, div-add-mod (a / 2) m)

    whole : a % (2 * m) ≡ rest
    whole =
        ap (λ t. t % (2 * m)) split
        ∙ mul-add-mod_self_left (2 * m) (a / 2 / m) rest
        ∙ mod-eq_of_lt (omega (arith, mod-lt (a / 2) h))

-- A remainder by `2 ^ n` keeps the digits below `n`.
pub testbit-mod-pow : (n i a : ℕ) → testbit (a % 2 ^ n) i ≡ (ltb i n && testbit a i)
unfolding testbit
testbit-mod-pow zero i a = ap (λ x. testbit x i) (omega arith) ∙ testbit-zero i ∙ ground arith
testbit-mod-pow (suc n) zero a = ground (arith, pow-succ' 2 n, mod_double a (2 ^ n), one-le-pow n 2)
testbit-mod-pow (suc n) (suc i) a =
    ap (λ x. testbit x i)
      (ap (λ t. a % t / 2) (pow-succ' 2 n)
        ∙ (mod_double a (2 ^ n) (one-le-pow n 2 (omega arith))).0)
    ∙ testbit-mod-pow n i (a / 2)
    ∙ ground arith

-- Two numbers below `2 ^ n` that agree on `n` digits are equal.
pub testbit_ext :
    (n a b : ℕ) → a < 2 ^ n → b < 2 ^ n → ((i : ℕ) → i < n → testbit a i ≡ testbit b i) → a ≡ b
unfolding testbit
testbit_ext zero a b ha hb h = omega arith
testbit_ext (suc n) a b ha hb h = ground (
  arith,
  pow-succ' 2 n,
  h 0,
  testbit_ext n (a / 2) (b / 2) (omega (arith, pow-succ' 2 n)) (omega (arith, pow-succ' 2 n))
      (λ i hi. h (suc i) (omega arith)),
)

-- A power of two has one digit.
pub testbit-pow : (k i : ℕ) → testbit (2 ^ k) i ≡ (k == i)
unfolding testbit
testbit-pow zero zero = refl
testbit-pow zero (suc i) = testbit-zero i ∙ ground arith
testbit-pow (suc k) zero = ground (arith, pow-succ' 2 k)
testbit-pow (suc k) (suc i) =
    ap (λ x. testbit x i) (omega (arith, pow-succ' 2 k)) ∙ testbit-pow k i ∙ ground arith

-- The complement to `n` ones.
pub testbit-complement :
    (n i a : ℕ) → a < 2 ^ n → i < n → testbit (2 ^ n - 1 - a) i ≡ not (testbit a i)
unfolding testbit
testbit-complement zero i a ha hi = absurd (omega arith)
testbit-complement (suc n) zero a ha hi = ground (arith, pow-succ' 2 n)
testbit-complement (suc n) (suc i) a ha hi =
    ap (λ x. testbit x i) (omega (arith, pow-succ' 2 n))
    ∙ testbit-complement n i (a / 2) (omega (arith, pow-succ' 2 n)) (omega arith)

-- No digit stands at `n` or above in a number below `2 ^ n`.
pub testbit_above : (n i a : ℕ) → a < 2 ^ n → n ≤ i → testbit a i ≡ false
unfolding testbit
testbit_above zero i a ha hi = ap (λ x. testbit x i) {y = 0} (omega arith) ∙ testbit-zero i
testbit_above (suc n) zero a ha hi = absurd (omega arith)
testbit_above (suc n) (suc i) a ha hi =
    testbit_above n i (a / 2) (omega (arith, pow-succ' 2 n)) (omega arith)

pub bit_and-lt : (n a b : ℕ) → a < 2 ^ n → bit_and a b < 2 ^ n
bit_and-lt zero zero b ha = omega (arith, bit_and-bitwise 0 b)
bit_and-lt zero (suc a) b ha = absurd (omega arith)
bit_and-lt (suc n) a b ha = omega (
  arith,
  pow-succ' 2 n,
  bit_and_step a b,
  bit_and-lt n (a / 2) (b / 2) (omega (arith, pow-succ' 2 n)),
)

pub bit_or-lt : (n a b : ℕ) → a < 2 ^ n → b < 2 ^ n → bit_or a b < 2 ^ n
bit_or-lt zero zero zero ha hb = omega arith
bit_or-lt zero zero (suc b) ha hb = absurd (omega arith)
bit_or-lt zero (suc a) b ha hb = absurd (omega arith)
bit_or-lt (suc n) a b ha hb = omega (
  arith,
  pow-succ' 2 n,
  bit_or_step a b,
  bit_or-lt n (a / 2) (b / 2) (omega (arith, pow-succ' 2 n)) (omega (arith, pow-succ' 2 n)),
)
