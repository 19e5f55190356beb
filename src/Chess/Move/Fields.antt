-- ===== src/Chess/Move/Fields.antt =====
-- The three fields of a packed move, and its text.
use fat_fritz.Common.{
  ℕ, ◌+◌, ◌-◌, ◌*◌, ◌/◌, ◌%◌, ◌^◌, ◌<◌, bit_and, bit_xor, true, ◌==◌, ◌≡◌, refl, sym, ap, ◌∙◌,
  arith, all_below, all_below_sound,
}
use fat_fritz.Bits.{bit_and_field, bit_xor_fields, bit_replace_field, bit_xor-zero}
use fat_fritz.Chess.Square
use fat_fritz.Chess.Move.{
  Promotion, no_promotion, promotion_code, promotion_of, Move, move, promoting, to, from, promotion,
  set_to, set_from, set_promotion, mirror,
}

abbrev pub promotion_field : Move → ℕ
promotion_field m = m / 2 ^ 12 % 8

-- The fields as digits of the packed number.
pub to_lem : (m : Move) → m < 2 ^ 16 → to m ≡ m % 64
unfolding to
to_lem m h = omega (arith, bit_and_field 16 m 6 0 h (omega arith))

pub from_lem : (m : Move) → m < 2 ^ 16 → from m ≡ m / 64 % 64
unfolding from
from_lem m h = omega (arith, bit_and_field 16 m 6 6 h (omega arith))

pub promotion_lem : (m : Move) → m < 2 ^ 16 → promotion m ≡ promotion_of (promotion_field m)
unfolding promotion
promotion_lem m h =
    ap promotion_of {x = bit_and m 0b0111000000000000 / 2 ^ 12} {y = promotion_field m}
      (omega (arith, bit_and_field 16 m 3 12 h (omega arith)))

pub set_to_lem : (m sq : ℕ) → m < 2 ^ 16 → sq < 64 → set_to m sq ≡ m - m % 64 + sq
unfolding set_to
set_to_lem m sq h hs =
    ground (arith, bit_replace_field 16 m 6 0 sq h (omega arith) (omega arith) hs)

pub set_from_lem :
    (m sq : ℕ) → m < 2 ^ 16 → sq < 64 → set_from m sq ≡ m - m / 64 % 64 * 64 + sq * 64
unfolding set_from
set_from_lem m sq h hs =
    omega (arith, bit_replace_field 16 m 6 6 sq h (omega arith) (omega arith) hs)

pub promotion_code-lt : (p : Promotion) → promotion_code p < 8
promotion_code-lt no_promotion = omega arith
promotion_code-lt _ = omega arith

pub promotion_of_code : (p : Promotion) → promotion_of (promotion_code p) ≡ p
promotion_of_code no_promotion = refl
promotion_of_code _ = refl

pub set_promotion_lem :
    (m : Move) (p : Promotion)
    → m < 2 ^ 16
    → set_promotion m p ≡ m - promotion_field m * 2 ^ 12 + promotion_code p * 2 ^ 12
unfolding set_promotion
set_promotion_lem m p h = omega (
  arith,
  promotion_code-lt p,
  bit_replace_field 16 m 3 12 (promotion_code p) h (omega arith) (omega arith)
      (promotion_code-lt p),
)

pub mirror_lem :
    (m : Move)
    → m < 2 ^ 16
    → mirror m ≡ m / 2 ^ 12 * 2 ^ 12 + Square.mirror (m / 64 % 64) * 64 + Square.mirror (m % 64)
unfolding mirror
mirror_lem m h =
    ap (λ x. bit_xor x 0b111000111000) {x = m} {y = high * 2 ^ 6 + m % 64} (omega arith)
    ∙ bit_xor_fields 6 high (m % 64) 0b111000 0b111000 (omega arith) (omega arith)
    ∙ ap (λ x. bit_xor x 0b111000 * 64 + Square.mirror (m % 64)) {x = high}
        {y = m / 2 ^ 12 * 2 ^ 6 + m / 64 % 64} (omega arith)
    ∙ omega (
      arith,
      bit_xor_fields 6 (m / 2 ^ 12) (m / 64 % 64) 0 0b111000 (omega arith) (omega arith),
      bit_xor-zero (m / 2 ^ 12),
    )
  where
    high : ℕ
    high = m / 64

-- A mirrored square has the other row and the same column.
mirror_table : all_below 64 (λ sq. Square.mirror sq == (7 - sq / 8) * 8 + sq % 8) ≡ true
unfolding all_below
mirror_table = refl

pub mirror_square : (sq : ℕ) → sq < 64 → Square.mirror sq ≡ (7 - sq / 8) * 8 + sq % 8
mirror_square sq h = ground (arith, all_below_sound 64 _ sq mirror_table h)

-- A move built from two squares of the board and a promotion has them as its fields, and without
-- a promotion is the move built from the squares alone.
pub promoting_fields :
    (f t : ℕ) (p : Promotion)
    → f < 64
    → t < 64
    → (from (promoting f t p) ≡ f)
      × (to (promoting f t p) ≡ t)
      × (promotion (promoting f t p) ≡ p)
      × (promoting f t no_promotion ≡ move f t)
unfolding promoting move
promoting_fields f t p hf ht = (
  omega (arith, from_lem (promoting f t p) (omega arith), promotion_code-lt p),
  omega (arith, to_lem (promoting f t p) (omega arith), promotion_code-lt p),
  promotion_lem (promoting f t p) (omega arith)
      ∙ ap promotion_of {x = promotion_field (promoting f t p)} {y = promotion_code p}
          (omega (arith, promotion_code-lt p))
      ∙ promotion_of_code p,
  omega arith,
)

same_promotion :
    (a b : Move)
    → a < 2 ^ 16
    → b < 2 ^ 16
    → promotion_field a ≡ promotion_field b
    → promotion a ≡ promotion b
same_promotion a b ha hb e = promotion_lem a ha ∙ ap promotion_of e ∙ sym (promotion_lem b hb)

-- Each setter changes its own field and keeps the two others.
pub record SetsOnly (m sq : ℕ) (p : Promotion) : Type 0 where
  pub to_of_set_to : to (set_to m sq) ≡ sq
  pub from_of_set_to : from (set_to m sq) ≡ from m
  pub promotion_of_set_to : promotion (set_to m sq) ≡ promotion m
  pub to_of_set_from : to (set_from m sq) ≡ to m
  pub from_of_set_from : from (set_from m sq) ≡ sq
  pub promotion_of_set_from : promotion (set_from m sq) ≡ promotion m
  pub to_of_set_promotion : to (set_promotion m p) ≡ to m
  pub from_of_set_promotion : from (set_promotion m p) ≡ from m
  pub promotion_of_set_promotion : promotion (set_promotion m p) ≡ p

-- In a 15-bit move each setter, given a square of the board or a promotion, changes its own field
-- and keeps the two others.
pub setters-SetsOnly : (m sq : ℕ) (p : Promotion) → m < 2 ^ 15 → sq < 64 → SetsOnly m sq p
setters-SetsOnly m sq p h hs =
    let h16 : m < 2 ^ 16 = omega arith in
    let a = set_to_lem m sq h16 hs in
    let b = set_from_lem m sq h16 hs in
    let c = set_promotion_lem m p h16 in
    let small : promotion_code p < 8 = promotion_code-lt p in
    let a16 : set_to m sq < 2 ^ 16 = omega arith in
    let b16 : set_from m sq < 2 ^ 16 = omega arith in
    let c16 : set_promotion m p < 2 ^ 16 = omega arith in
    record {
      to_of_set_to = omega (arith, to_lem (set_to m sq) a16);
      from_of_set_to = omega (arith, from_lem (set_to m sq) a16, from_lem m h16);
      promotion_of_set_to = same_promotion (set_to m sq) m a16 h16 (omega arith);
      to_of_set_from = omega (arith, to_lem (set_from m sq) b16, to_lem m h16);
      from_of_set_from = omega (arith, from_lem (set_from m sq) b16);
      promotion_of_set_from = same_promotion (set_from m sq) m b16 h16 (omega arith);
      to_of_set_promotion = omega (arith, to_lem (set_promotion m p) c16, to_lem m h16);
      from_of_set_promotion = omega (arith, from_lem (set_promotion m p) c16, from_lem m h16);
      promotion_of_set_promotion =
          promotion_lem (set_promotion m p) c16
          ∙ ap promotion_of {x = promotion_field (set_promotion m p)} {y = promotion_code p}
              (omega arith)
          ∙ promotion_of_code p;
    }

-- Mirroring a 15-bit move mirrors both of its squares, keeps the promotion, and done twice gives
-- the move back.
pub mirror_fields :
    (m : Move)
    → m < 2 ^ 15
    → (from (mirror m) ≡ Square.mirror (from m))
      × (to (mirror m) ≡ Square.mirror (to m))
      × (promotion (mirror m) ≡ promotion m)
      × (mirror (mirror m) ≡ m)
mirror_fields m h =
    let h16 : m < 2 ^ 16 = omega arith in
    let e = mirror_lem m h16 in
    let ef = mirror_square (m / 64 % 64) (omega arith) in
    let et = mirror_square (m % 64) (omega arith) in
    let m16 : mirror m < 2 ^ 16 = omega arith in
    let f : from (mirror m) ≡ Square.mirror (m / 64 % 64) =
      omega (arith, from_lem (mirror m) m16) in
    let t : to (mirror m) ≡ Square.mirror (m % 64) = omega (arith, to_lem (mirror m) m16) in
    (
      f ∙ ap Square.mirror (sym (from_lem m h16)),
      t ∙ ap Square.mirror (sym (to_lem m h16)),
      same_promotion (mirror m) m m16 h16 (omega arith),
      omega (
        arith,
        mirror_lem (mirror m) m16,
        mirror_square (mirror m / 64 % 64) (omega arith),
        mirror_square (mirror m % 64) (omega arith),
      ),
    )
