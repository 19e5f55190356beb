-- ===== src/Chess/Attacks/Magic/Occupancy.antt =====
-- The occupancies that BuildAttacksTable runs through are all those below the mask.
use native.Mathlib.Nat.{pow-succ', div-div-eq-div-mul, one-le-pow}
use native.Mathlib.Numerals.{towards_suc}
use fat_fritz.Common.{
  ℕ, suc, ◌+◌, ◌*◌, ◌/◌, ◌^◌, ◌<◌, bit_and, List, [], ◌∷◌, if◌then◌else◌, Bool, true, false, not,
  ◌&&◌, ◌||◌, ◌==◌, ◌≡◌, sym, ap, ◌∙◌, arith, Bool-cases, inl, inr, length, Member, All,
  All-of_Member, ==→≡,
}
use fat_fritz.Bits.{
  testbit, IsU64, testbit-bit_and, bit_and-IsU64, testbit-pow, testbit-zero, testbit_ext,
  testbit-div-pow, bit_and-lt, word_ext,
}
use fat_fritz.Utils.BitIter.{iterate_bits}
use fat_fritz.Utils.BitIter.Iterate.{Member-iterate_bits, Member-iterate_bits_inv}
use fat_fritz.Chess.BitBoard.{BitBoard}
use fat_fritz.Chess.BitBoard.Laws.{testbit-set_if, set_if-IsU64}
use fat_fritz.Chess.Attacks.Magic.{occupancy_at}

elem : ℕ → List ℕ → Bool
elem t [] = false
elem t (s ∷ ss) = s == t || elem t ss

-- The number of the occupancy that holds the pieces of `p` on the listed squares.
pub gather : List ℕ → BitBoard → ℕ
gather [] p = 0
gather (s ∷ ss) p = (if testbit p s then 1 else 0) + 2 * gather ss p

pub gather-lt : (ss : List ℕ) (p : BitBoard) → gather ss p < 2 ^ length ss
unfolding gather
gather-lt [] p = omega arith
gather-lt (s ∷ ss) p = ground (arith, pow-succ' 2 (length ss), gather-lt ss p)

-- The test `(1 << bit) & i` reads a digit.
bit_test : (bit i : ℕ) → not (bit_and (2 ^ bit) i == 0) ≡ testbit i bit
bit_test bit i = elim (Bool-cases (testbit i bit)) [
  | inr off ↦
      let e : bit_and (2 ^ bit) i ≡ 0 =
        testbit_ext (suc bit) _ 0
          (bit_and-lt (suc bit) (2 ^ bit) i (omega (arith, pow-succ' 2 bit, one-le-pow bit 2)))
          (one-le-pow (suc bit) 2 (omega arith))
          (λ j hj.
            testbit-bit_and j (2 ^ bit) i ∙ ground (arith, testbit-pow bit j, testbit-zero j)) in
      rw (e, off)
  | inl on ↦ elim (Bool-cases (bit_and (2 ^ bit) i == 0)) [
    | inr nonzero ↦ rw (nonzero, on)
    | inl empty ↦
        let e : bit_and (2 ^ bit) i ≡ 0 = ==→≡ _ 0 empty in
        ground (
          arith,
          testbit-bit_and bit (2 ^ bit) i,
          testbit-pow bit bit,
          testbit-zero bit,
          ap (λ x. testbit x bit) e,
        )
  ]
]

next_bit : (i bit : ℕ) → i / 2 ^ (bit + 1) ≡ i / 2 ^ bit / 2
next_bit i bit =
    ap (λ t. i / t) {x = 2 ^ (bit + 1)} {y = 2 ^ bit * 2}
      (simp towards_suc (omega (arith, pow-succ' 2 bit)))
    ∙ sym (div-div-eq-div-mul i (2 ^ bit) 2)

testbit-occupancy_at :
    (ss : List ℕ) (bit i t : ℕ) (p o : BitBoard)
    → All (λ s. s < 64) ss
    → t < 64
    → i / 2 ^ bit ≡ gather ss p
    → testbit (occupancy_at ss bit i o) t ≡ (testbit o t || (elem t ss && testbit p t))
unfolding occupancy_at gather elem testbit
testbit-occupancy_at [] bit i t p o small ht e = ground arith
testbit-occupancy_at (s ∷ ss) bit i t p o small ht e =
    let half : i / 2 ^ bit / 2 ≡ gather ss p = ground arith in
    let here : testbit i bit ≡ testbit p s = ground (arith, testbit-div-pow bit 0 i) in
    let later = next_bit i bit ∙ half in
    testbit-occupancy_at ss (bit + 1) i t p _ small.1 ht later
    ∙ ground (
      arith,
      bit_test bit i,
      here,
      testbit-set_if o s t small.0 ht (not (bit_and (2 ^ bit) i == 0)),
    )

occupancy_at-IsU64 :
    (ss : List ℕ) (bit i : ℕ) (o : BitBoard) → IsU64 o → IsU64 (occupancy_at ss bit i o)
unfolding occupancy_at
occupancy_at-IsU64 [] bit i o h = h
occupancy_at-IsU64 (s ∷ ss) bit i o h = occupancy_at-IsU64 ss (bit + 1) i _ (set_if-IsU64 o s _ h)

elem_of_Member : (t : ℕ) (ss : List ℕ) → Member t ss → elem t ss ≡ true
unfolding elem
elem_of_Member t [] m = absurd m
elem_of_Member t (s ∷ ss) (inl e) = ground arith
elem_of_Member t (s ∷ ss) (inr m) = ground (arith, elem_of_Member t ss m)

Member-of_elem : (t : ℕ) (ss : List ℕ) → elem t ss ≡ true → Member t ss
unfolding elem
Member-of_elem t [] h = absurd (cc)
Member-of_elem t (s ∷ ss) h = elim (Bool-cases (s == t)) [
  | inl same ↦ inl (sym (==→≡ s t same))
  | inr other ↦ inr (Member-of_elem t ss (ground arith))
]

elem-iterate_bits : (mask t : ℕ) → IsU64 mask → t < 64 → elem t (iterate_bits mask) ≡ testbit mask t
elem-iterate_bits mask t h ht = elim (Bool-cases (testbit mask t)) [
  | inl on ↦ elem_of_Member t _ (Member-iterate_bits mask t h ht on) ∙ sym on
  | inr off ↦ elim (Bool-cases (elem t (iterate_bits mask))) [
    | inr out ↦ out ∙ sym off
    | inl held ↦ ground (arith, (Member-iterate_bits_inv mask t h (Member-of_elem t _ held)).1)
  ]
]

-- The pieces on the mask are the occupancy with the gathered number.
pub occupancy_at-gather :
    (mask p : BitBoard)
    → IsU64 mask
    → IsU64 p
    → occupancy_at (iterate_bits mask) 0 (gather (iterate_bits mask) p) 0 ≡ bit_and p mask
occupancy_at-gather mask p h hp =
    word_ext _ _ (occupancy_at-IsU64 _ 0 _ 0 (omega arith)) (bit_and-IsU64 p mask hp) λ t ht.
      testbit-occupancy_at (iterate_bits mask) 0 _ t p 0
        (All-of_Member _ _ (λ s m. (Member-iterate_bits_inv mask s h m).0)) ht (omega arith)
      ∙ ground (arith, testbit-zero t, elem-iterate_bits mask t h ht, testbit-bit_and t p mask)
