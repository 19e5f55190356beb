-- ===== src/Chess/Move/Text.antt =====
-- Moves written in coordinates, such as e2e4 and e7e8q, and read back.
use fat_fritz.Common.{ℕ, ◌+◌, ◌*◌, ◌^◌, ◌≤◌, ◌<◌, false, ◌≡◌, ap, ◌∙◌, arith, ◌++◌, some}
use fat_fritz.Chess.Square.{of_name, row, col}
use fat_fritz.Chess.Square
use fat_fritz.Chess.Move.{
  Promotion, no_promotion, queen, rook, bishop, knight, promotion_code, promotion_of, Move, to,
  from, promotion, set_to, set_from, set_promotion, as_string, of_string, suffix,
}
use fat_fritz.Chess.Move.Fields.{
  promotion_field, to_lem, from_lem, promotion_lem, set_to_lem, set_from_lem, set_promotion_lem,
}

of_name-as_string : (sq : ℕ) → sq < 64 → of_name (b'a' + col sq) (b'1' + row sq) false ≡ sq
unfolding of_name
of_name-as_string sq h = omega arith

promotion_code_of : (n : ℕ) → n ≤ 4 → promotion_code (promotion_of n) ≡ n
promotion_code_of n h = ground arith

-- What `of_string` makes of the text of two squares and a promotion.
read_back : (f t : ℕ) (p : Promotion) → ℕ
read_back f t no_promotion = set_to (set_from 0 f) t
read_back f t queen = set_promotion (set_to (set_from 0 f) t) queen
read_back f t rook = set_promotion (set_to (set_from 0 f) t) rook
read_back f t bishop = set_promotion (set_to (set_from 0 f) t) bishop
read_back f t knight = set_promotion (set_to (set_from 0 f) t) knight

of_string_text :
    (f t : ℕ) (p : Promotion)
    → f < 64
    → t < 64
    → of_string (Square.as_string f ++ Square.as_string t ++ suffix p) false
      ≡ some (read_back f t p)
unfolding of_string Square.as_string read_back
of_string_text f t no_promotion hf ht = rw (of_name-as_string f hf, of_name-as_string t ht)
of_string_text f t _ hf ht = rw (of_name-as_string f hf, of_name-as_string t ht)

read_back_lem :
    (f t : ℕ) (p : Promotion)
    → f < 64
    → t < 64
    → read_back f t p ≡ t + f * 64 + promotion_code p * 2 ^ 12
unfolding read_back
read_back_lem f t no_promotion hf ht =
    let a = set_from_lem 0 f (omega arith) hf in
    omega (arith, set_to_lem (set_from 0 f) t (omega arith) ht)
read_back_lem f t _ hf ht =
    let a = set_from_lem 0 f (omega arith) hf in
    let b = set_to_lem (set_from 0 f) t (omega arith) ht in
    omega (arith, set_promotion_lem (set_to (set_from 0 f) t) _ (omega arith))

-- Reading the text of a move of 15 bits whose promotion field is one of the five promotions gives
-- the move back.
pub of_string-as_string :
    (m : Move) → m < 2 ^ 15 → promotion_field m ≤ 4 → of_string (as_string m) false ≡ some m
unfolding as_string
of_string-as_string m h hp =
    let h16 : m < 2 ^ 16 = omega arith in
    let f = from_lem m h16 in
    let t = to_lem m h16 in
    let p = ap promotion_code (promotion_lem m h16) ∙ promotion_code_of (promotion_field m) hp in
    of_string_text (from m) (to m) (promotion m) (omega arith) (omega arith)
    ∙ ap some
        (read_back_lem (from m) (to m) (promotion m) (omega arith) (omega arith) ∙ omega arith)
