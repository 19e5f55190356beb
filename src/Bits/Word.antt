-- ===== src/Bits/Word.antt =====
-- `uint64_t`: values below 2 ^ 64, with the shifts and the complement of C++.
use native.Mathlib.Nat.{div-le_self}
use fat_fritz.Common.{
  ℕ, ◌+◌, ◌-◌, ◌*◌, ◌/◌, ◌%◌, ◌^◌, ◌≤◌, ◌<◌, bit_and, bit_or, ◌≡◌, false, not, ◌&&◌, leb, arith,
}
use fat_fritz.Bits.Digits.{
  testbit, testbit-mul-pow, testbit-div-pow, testbit-mod-pow, testbit_ext, testbit-complement,
  testbit_above, bit_and-lt, bit_or-lt,
}

-- `a << k`.
unfoldable pub shl64 : ℕ → ℕ → ℕ
shl64 a k = a * 2 ^ k % 2 ^ 64

-- `a >> k`.
unfoldable pub shr64 : ℕ → ℕ → ℕ
shr64 a k = a / 2 ^ k

-- `~a`.
unfoldable pub not64 : ℕ → ℕ
not64 a = 2 ^ 64 - 1 - a

abbrev pub IsU64 : ℕ → Type 0
IsU64 a = a < 2 ^ 64

pub testbit-shl64 : (a k i : ℕ) → i < 64 → testbit (shl64 a k) i ≡ (leb k i && testbit a (i - k))
unfolding shl64
testbit-shl64 a k i h = ground (arith, testbit-mod-pow 64 i (a * 2 ^ k), testbit-mul-pow k i a)

pub testbit-shr64 : (a k i : ℕ) → testbit (shr64 a k) i ≡ testbit a (i + k)
unfolding shr64
testbit-shr64 a k i = testbit-div-pow k i a

pub testbit-not64 : (a i : ℕ) → IsU64 a → i < 64 → testbit (not64 a) i ≡ not (testbit a i)
unfolding not64
testbit-not64 a i ha h = testbit-complement 64 i a ha h

pub shl64-IsU64 : (a k : ℕ) → IsU64 (shl64 a k)
unfolding shl64
shl64-IsU64 a k = omega arith

pub shr64-IsU64 : (a k : ℕ) → IsU64 a → IsU64 (shr64 a k)
unfolding shr64
shr64-IsU64 a k h = omega (arith, div-le_self a (2 ^ k))

pub not64-IsU64 : (a : ℕ) → IsU64 (not64 a)
unfolding not64
not64-IsU64 a = omega arith

pub bit_and-IsU64 : (a b : ℕ) → IsU64 a → IsU64 (bit_and a b)
bit_and-IsU64 a b h = bit_and-lt 64 a b h

pub bit_or-IsU64 : (a b : ℕ) → IsU64 a → IsU64 b → IsU64 (bit_or a b)
bit_or-IsU64 a b h k = bit_or-lt 64 a b h k

pub word_ext :
    (a b : ℕ) → IsU64 a → IsU64 b → ((i : ℕ) → i < 64 → testbit a i ≡ testbit b i) → a ≡ b
word_ext a b = testbit_ext 64 a b

pub testbit_beyond : (a i : ℕ) → IsU64 a → 64 ≤ i → testbit a i ≡ false
testbit_beyond a i h k = testbit_above 64 i a h k
