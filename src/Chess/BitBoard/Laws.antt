-- ===== src/Chess/BitBoard/Laws.antt =====
-- What each operation of BitBoard does to each square.
use fat_fritz.Common.{
  ℕ, ◌-◌, ◌<◌, bit_and, Bool, true, false, not, ◌&&◌, ◌||◌, ◌==◌, ◌≡◌, refl, sym, ap, ◌∙◌, arith,
  Bool-cases, inl, inr,
}
use fat_fritz.Bits.{
  shl64, not64, testbit, IsU64, testbit-bit_and, testbit-bit_or, testbit-shl64, testbit-not64,
  testbit-pow, shl64-IsU64, bit_and-IsU64, bit_or-IsU64, word_ext, testbit-zero,
}
use fat_fritz.Chess.BitBoard.{as_board, set_if, set, reset, get, intersects, without, minus}

pub testbit-as_board : (p i : ℕ) → p < 64 → i < 64 → testbit (shl64 1 p) i ≡ (p == i)
testbit-as_board p i hp hi = ground (arith, testbit-shl64 1 p i hi, testbit-pow 0 (i - p))

module _ (b p i : ℕ) (hp : p < 64) (hi : i < 64) where
  -- A square is set by `set`, and no other changes.
  pub testbit-set : testbit (set b p) i ≡ (p == i || testbit b i)
  unfolding set
  testbit-set = ground (arith, testbit-bit_or i b (shl64 1 p), testbit-as_board p i hp hi)

  pub testbit-reset : testbit (reset b p) i ≡ (not (p == i) && testbit b i)
  unfolding reset
  testbit-reset = ground (
    arith,
    testbit-bit_and i b (not64 (shl64 1 p)),
    testbit-not64 (shl64 1 p) i (shl64-IsU64 1 p) hi,
    testbit-as_board p i hp hi,
  )

  pub testbit-without : testbit (without b p) i ≡ (not (p == i) && testbit b i)
  unfolding without as_board
  testbit-without = ground (
    arith,
    testbit-bit_and i b (not64 (shl64 1 p)),
    testbit-not64 (shl64 1 p) i (shl64-IsU64 1 p) hi,
    testbit-as_board p i hp hi,
  )

  pub testbit-set_if :
      (cond : Bool) → testbit (set_if b p cond) i ≡ ((cond && p == i) || testbit b i)
  unfolding set_if
  testbit-set_if true = ground (arith, testbit-bit_or i b (shl64 1 p), testbit-as_board p i hp hi)
  testbit-set_if false =
      ground (arith, testbit-bit_or i b (shl64 0 p), testbit-shl64 0 p i hi, testbit-zero (i - p))

-- Nothing is lost by `set`, wherever the square.
pub set_grows : (b p i : ℕ) → testbit b i ≡ true → testbit (set b p) i ≡ true
unfolding set
set_grows b p i h = ground (arith, testbit-bit_or i b (shl64 1 p))

pub testbit-minus :
    (a b i : ℕ) → IsU64 b → i < 64 → testbit (minus a b) i ≡ (testbit a i && not (testbit b i))
unfolding minus
testbit-minus a b i hb hi = ground (arith, testbit-bit_and i a (not64 b), testbit-not64 b i hb hi)

-- `intersects` is false exactly if no square is in both boards.
pub intersects-false : (a b i : ℕ) → intersects a b ≡ false → (testbit a i && testbit b i) ≡ false
unfolding intersects
intersects-false a b i h =
    sym (testbit-bit_and i a b) ∙ ap (λ x. testbit x i) {y = 0} (ground arith) ∙ testbit-zero i

pub intersects_none :
    (a b : ℕ)
    → IsU64 a
    → ((i : ℕ) → i < 64 → (testbit a i && testbit b i) ≡ false)
    → intersects a b ≡ false
unfolding intersects
intersects_none a b ha h =
    let e : bit_and a b ≡ 0 =
      word_ext _ 0 (bit_and-IsU64 a b ha) (omega arith)
        (λ i hi. testbit-bit_and i a b ∙ h i hi ∙ sym (testbit-zero i)) in
    rw e

get-intersects : (b p : ℕ) → intersects b (shl64 1 p) ≡ get b p
unfolding get intersects
get-intersects b p = refl

-- `get` reads the digit of the square.
pub get-eq-testbit : (b p : ℕ) → IsU64 b → p < 64 → get b p ≡ testbit b p
get-eq-testbit b p hb hp = elim (Bool-cases (testbit b p)) [
  | inl on ↦ elim (Bool-cases (get b p)) [
    | inl e ↦ e ∙ sym on
    | inr e ↦ ground (
      arith,
      testbit-as_board p p hp hp,
      intersects-false b (shl64 1 p) p (get-intersects b p ∙ e),
    )
  ]
  | inr off ↦
      sym (get-intersects b p)
      ∙ intersects_none b (shl64 1 p) hb (λ i hi. ground (arith, testbit-as_board p i hp hi))
      ∙ sym off
]

pub set-IsU64 : (b p : ℕ) → IsU64 b → IsU64 (set b p)
unfolding set
set-IsU64 b p h = bit_or-IsU64 b _ h (shl64-IsU64 1 p)

pub set_if-IsU64 : (b p : ℕ) (c : Bool) → IsU64 b → IsU64 (set_if b p c)
unfolding set_if
set_if-IsU64 b p c h = bit_or-IsU64 b _ h (shl64-IsU64 _ p)

pub reset-IsU64 : (b p : ℕ) → IsU64 b → IsU64 (reset b p)
unfolding reset
reset-IsU64 b p h = bit_and-IsU64 b _ h

pub minus-IsU64 : (a b : ℕ) → IsU64 a → IsU64 (minus a b)
unfolding minus
minus-IsU64 a b h = bit_and-IsU64 a _ h

pub without-IsU64 : (a p : ℕ) → IsU64 a → IsU64 (without a p)
unfolding without
without-IsU64 a p h = bit_and-IsU64 a _ h
