-- ===== src/Mcts/Edge/Rounding.antt =====
-- The probability of an edge is the nearest of those that 16 bits can hold.
use fat_fritz.Common.{ℕ, ◌+◌, ◌*◌, ◌%◌, ◌^◌, ◌<◌, ◌≤◌, bit_and, bit_or, ◌≡◌, ap, ◌∙◌, arith}
use fat_fritz.Bits.{
  testbit-bit_and, testbit-mul-pow, testbit-zero, testbit_ext, bit_and-lt, bit_or_disjoint,
}
use fat_fritz.Mcts.Edge.{Edge, set_p, get_p}

-- The exponent bits that are set in every probability are above the others.
bit_or-exponent : (n : ℕ) → n < 2 ^ 28 → bit_or n (3 * 2 ^ 28) ≡ n + 3 * 2 ^ 28
bit_or-exponent n h = bit_or_disjoint 28 n (3 * 2 ^ 28) h (
    testbit_ext 28 (bit_and n (3 * 2 ^ 28)) 0 (bit_and-lt 28 n (3 * 2 ^ 28) h) (omega arith)
      (λ i hi.
        testbit-bit_and i n (3 * 2 ^ 28)
        ∙ ground (arith, testbit-mul-pow 28 i 3, testbit-zero i, hi)))

get_p-sum : (e : Edge) → e.p < 2 ^ 16 → get_p e ≡ e.p * 2 ^ 12 + 3 * 2 ^ 28
unfolding get_p
get_p-sum e h =
    ap (λ n. bit_or n (3 * 2 ^ 28)) {x = e.p * 2 ^ 12 % 2 ^ 32} {y = e.p * 2 ^ 12} (omega arith)
    ∙ bit_or-exponent (e.p * 2 ^ 12) (omega arith)

set_p-small : (e : Edge) (bits : ℕ) → (set_p e bits).p < 2 ^ 16
unfolding set_p
set_p-small e bits = ground arith

-- For a probability of at most 1 whose two assumed exponent bits are set, what GetP returns after
-- SetP differs from it by at most half of the last bit that is kept.
pub get_p-set_p :
    (e : Edge) (bits : ℕ)
    → 3 * 2 ^ 28 ≤ bits
    → bits ≤ 0x3F800000
    → (get_p (set_p e bits) ≤ bits + 2 ^ 11) × (bits < get_p (set_p e bits) + 2 ^ 11)
unfolding set_p
get_p-set_p e bits low high =
    let sum = get_p-sum (set_p e bits) (set_p-small e bits) in rw (sum) (ground (arith, low, high))

-- Setting the probability of an edge to what GetP returns changes nothing, for each of the 65536
-- values that it can have.
pub set_p-get_p : (e : Edge) → e.p < 2 ^ 16 → set_p e (get_p e) ≡ e
unfolding set_p
set_p-get_p e h = let sum = get_p-sum e h in rw (sum) (ground (arith, h))
