-- ===== src/Utils/BitIter/Iterate.antt =====
-- The iterator visits exactly the set bits, from the lowest up.
use native.Mathlib.Nat.{pow-succ', pow-le-pow_right}
use fat_fritz.Common.{
  ℕ, zero, suc, ◌+◌, ◌-◌, ◌*◌, ◌%◌, ◌/◌, ◌^◌, ◌≤◌, ◌<◌, bit_and, if◌then◌else◌, ◌==◌, List, [], ◌∷◌,
  map, ◌≡◌, refl, ap, ◌∙◌, arith, Bool-cases, inl, inr, sym, ap₂, Member, Member-map,
  Member-map_inv, true, ◌⊎◌,
}
use fat_fritz.Bits.{bit_and_step, bit_and-lt, testbit, IsU64}
use fat_fritz.Utils.BitIter.{count_trailing_zeros, get_lowest_bit, advance, iterate, iterate_bits}

-- The places of the 1s among the lowest `n` digits, ascending.
unfoldable pub ones : ℕ → ℕ → List ℕ
ones zero v = []
ones (suc n) v = let rest = map suc (ones n (v / 2)) in if v % 2 == 1 then 0 ∷ rest else rest

-- Digits shifted by one move the lowest 1 up, as long as there is fuel to see it.
trailing_zeros_fuel :
    (m n v : ℕ)
    → v < 2 ^ m
    → v < 2 ^ n
    → 0 < v
    → count_trailing_zeros m v ≡ count_trailing_zeros n v
unfolding count_trailing_zeros
trailing_zeros_fuel zero n v h k p = absurd (omega arith)
trailing_zeros_fuel (suc m) zero v h k p = absurd (omega arith)
trailing_zeros_fuel (suc m) (suc n) v h k p = ground (
  arith,
  trailing_zeros_fuel m n (v / 2) (omega (arith, pow-succ' 2 m)) (omega (arith, pow-succ' 2 n)),
)

-- `count_trailing_zeros` past an even digit.
lowest_step :
    (n v : ℕ) → v % 2 ≡ 0 → count_trailing_zeros (suc n) v ≡ suc (count_trailing_zeros n (v / 2))
unfolding count_trailing_zeros
lowest_step n v h = ground arith

lowest_bit_odd : (a : ℕ) → get_lowest_bit (2 * a + 1) ≡ 0
unfolding get_lowest_bit
lowest_bit_odd a = odd_stop 63 (2 * a + 1) (omega arith)
  where
    odd_stop : (n v : ℕ) → v % 2 ≡ 1 → count_trailing_zeros (suc n) v ≡ 0
    odd_stop n v h = unfold count_trailing_zeros in ground arith

lowest_bit_double :
    (a : ℕ) → 0 < a → 2 * a < 2 ^ 64 → get_lowest_bit (2 * a) ≡ suc (get_lowest_bit a)
unfolding get_lowest_bit
lowest_bit_double a p h =
    lowest_step 63 (2 * a) (omega arith)
    ∙ ap (λ x. suc (count_trailing_zeros 63 x)) (omega arith)
    ∙ ap suc (trailing_zeros_fuel 63 64 a (omega arith) (omega arith) p)

bit_and_self : (n a : ℕ) → a ≤ n → bit_and a a ≡ a
bit_and_self zero zero h = refl
bit_and_self zero (suc a) h = absurd (omega arith)
bit_and_self (suc n) zero h = refl
bit_and_self (suc n) (suc a) h =
    omega (arith, bit_and_step (suc a) (suc a), bit_and_self n (suc a / 2) (omega arith))

advance_odd : (a : ℕ) → advance (2 * a + 1) ≡ 2 * a
unfolding advance
advance_odd a = ground (arith, bit_and_step (2 * a + 1) (2 * a + 1 - 1), bit_and_self a a)

advance_double : (a : ℕ) → 0 < a → advance (2 * a) ≡ 2 * advance a
unfolding advance
advance_double a p = ground (arith, bit_and_step (2 * a) (2 * a - 1))

bit_and-le : (n a b : ℕ) → a ≤ n → bit_and a b ≤ a
bit_and-le zero zero b h = omega (arith, bit_and-lt 0 0 b)
bit_and-le zero (suc a) b h = absurd (omega arith)
bit_and-le (suc n) zero b h = omega (arith, bit_and-lt 0 0 b)
bit_and-le (suc n) (suc a) b h =
    omega (arith, bit_and_step (suc a) b, bit_and-le n (suc a / 2) (b / 2) (omega arith))

advance-le : (v : ℕ) → advance v ≤ v
unfolding advance
advance-le v = bit_and-le v v (v - 1) (omega arith)

iterate_zero : (f : ℕ) → iterate f 0 ≡ []
unfolding iterate
iterate_zero zero = refl
iterate_zero (suc f) = refl

iterate-suc : (f v : ℕ) → 0 < v → iterate (suc f) v ≡ get_lowest_bit v ∷ iterate f (advance v)
unfolding iterate
iterate-suc f v h = ground arith

-- The set bits of `2 * a` are those of `a`, each one place up.
iterate_double : (f a : ℕ) → 2 * a < 2 ^ 64 → iterate f (2 * a) ≡ map suc (iterate f a)
iterate_double zero a h = unfold iterate in refl
iterate_double (suc f) zero h =
    ap (iterate (suc f)) {x = 2 * 0} {y = 0} refl
    ∙ iterate_zero (suc f)
    ∙ sym (ap (map suc) (iterate_zero (suc f)))
iterate_double (suc f) (suc a) h =
    iterate-suc f (2 * suc a) (omega arith)
    ∙ ap₂ ◌∷◌ (lowest_bit_double (suc a) (omega arith) h) (
        ap (iterate f) (advance_double (suc a) (omega arith))
        ∙ iterate_double f (advance (suc a)) (omega (arith, advance-le (suc a))))
    ∙ ap (map suc) (sym (iterate-suc f (suc a) (omega arith)))

iterate_odd : (f a : ℕ) → 2 * a < 2 ^ 64 → iterate (suc f) (2 * a + 1) ≡ 0 ∷ map suc (iterate f a)
iterate_odd f a h =
    iterate-suc f (2 * a + 1) (omega arith)
    ∙ ap₂ ◌∷◌ (lowest_bit_odd a) (ap (iterate f) (advance_odd a) ∙ iterate_double f a h)

iterate-ones : (n f v : ℕ) → n ≤ f → n ≤ 64 → v < 2 ^ n → iterate f v ≡ ones n v
unfolding ones
iterate-ones zero f v nf n64 h = ap (iterate f) {y = 0} (omega arith) ∙ iterate_zero f
iterate-ones (suc n) zero v nf n64 h = absurd (omega arith)
iterate-ones (suc n) (suc f) v nf n64 h =
    let small : v < 2 ^ 64 = omega (arith, pow-le-pow_right {n = 2} (omega arith) n64) in
    let half_small : v / 2 < 2 ^ n = omega (arith, pow-succ' 2 n) in
    elim (Bool-cases (v % 2 == 1)) [
      | inl odd ↦
          ap (iterate (suc f)) {y = 2 * (v / 2) + 1} (ground arith)
          ∙ iterate_odd f (v / 2) (omega arith)
          ∙ ap (λ l. 0 ∷ map suc l)
              (iterate-ones n f (v / 2) (omega arith) (omega arith) half_small)
          ∙ rw odd
      | inr even ↦
          ap (iterate (suc f)) {y = 2 * (v / 2)} (ground arith)
          ∙ iterate_double (suc f) (v / 2) (omega arith)
          ∙ ap (map suc) (iterate-ones n (suc f) (v / 2) (omega arith) (omega arith) half_small)
          ∙ rw even
    ]

-- A loop over the bits of a 64-bit word visits the places of its 1s, ascending, each once.
pub iterate_bits-ones : (v : ℕ) → IsU64 v → iterate_bits v ≡ ones 64 v
unfolding iterate_bits
iterate_bits-ones v h = iterate-ones 64 64 v (omega arith) (omega arith) h

Member-ones : (n v s : ℕ) → s < n → testbit v s ≡ true → Member s (ones n v)
unfolding ones testbit
Member-ones zero v s h e = absurd (omega arith)
Member-ones (suc n) v zero h e = rw e (inl refl)
Member-ones (suc n) v (suc s) h e =
    let later = Member-map suc s (ones n (v / 2)) (Member-ones n (v / 2) s (omega arith) e) in
    elim (Bool-cases (v % 2 == 1)) [ inl odd ↦ rw odd (inr later) | inr even ↦ rw even later ]

abbrev Visits : ℕ → ℕ → ℕ → Type 0
Visits n v s = (s < n) × (testbit v s ≡ true)

Visits-map :
    (n v s : ℕ)
    → ((t : ℕ) → Member t (ones n (v / 2)) → Visits n (v / 2) t)
    → Member s (map suc (ones n (v / 2)))
    → Visits (suc n) v s
unfolding testbit
Visits-map n v s ih m =
    let (t, mt, e) = Member-map_inv suc s (ones n (v / 2)) m in
    rw e (omega (arith, (ih t mt).0), (ih t mt).1)

Member-ones_inv : (n v s : ℕ) → Member s (ones n v) → Visits n v s
unfolding ones testbit
Member-ones_inv zero v s m = absurd m
Member-ones_inv (suc n) v s m = elim (Bool-cases (v % 2 == 1)) [
  | inl odd ↦
      let m' : (s ≡ 0) ⊎ Member s (map suc (ones n (v / 2))) = rw odd at m in
      elim m' [
        | inl e ↦ rw e (omega arith, odd)
        | inr later ↦ Visits-map n v s (λ t. Member-ones_inv n (v / 2) t) later
      ]
  | inr even ↦ Visits-map n v s (λ t. Member-ones_inv n (v / 2) t) (rw even at m)
]

-- A square is visited exactly if its bit is set.
pub Member-iterate_bits :
    (v s : ℕ) → IsU64 v → s < 64 → testbit v s ≡ true → Member s (iterate_bits v)
Member-iterate_bits v s h k e = rw (iterate_bits-ones v h) (Member-ones 64 v s k e)

pub Member-iterate_bits_inv :
    (v s : ℕ) → IsU64 v → Member s (iterate_bits v) → (s < 64) × (testbit v s ≡ true)
Member-iterate_bits_inv v s h m = Member-ones_inv 64 v s (rw (iterate_bits-ones v h) at m)
