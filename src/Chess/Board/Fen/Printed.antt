-- ===== src/Chess/Board/Fen/Printed.antt =====
-- The first field of a FEN string read back from a print of the board.
use fat_fritz.Common.{
  ℕ, zero, suc, ◌+◌, ◌*◌, ◌/◌, ◌%◌, ◌<◌, Bool, true, false, not, ◌&&◌, ◌||◌, ◌==◌, ltb, leb, List,
  [], ◌∷◌, Option, none, some, ◌≡◌, refl, ap, sym, ◌∙◌, subst, arith,
}
use fat_fritz.Common.Chars.{is_digit}
use fat_fritz.Chess.Square.{square_of}
use fat_fritz.Chess.Board.{ChessBoard}
use fat_fritz.Chess.Board.Look.{Look, look, inner, Kind, Side, kind_of, kind_at, piece_at}
use fat_fritz.Chess.Board.Valid.{IsValid}
use fat_fritz.Chess.Board.Text.Letters.{piece_letter}
use fat_fritz.Chess.Board.Fen.{put_pieces}
use fat_fritz.Chess.Board.Fen.Placing.{
  placed, put_piece-placed, look-placed, our_king-placed, their_king-placed, is_us, is_king,
  marks_rook, marks_bishop, marks_pawn,
}

-- The print of one square: a letter, or the number of one empty square.
abbrev pub symbol : Option (Side × Kind) → ℕ
symbol none = b'1'
symbol (some (side, k)) = piece_letter side k

-- `n` squares of row `r` from column `c` on, before `later`.
unfoldable pub print_row : ChessBoard → ℕ → ℕ → ℕ → List ℕ → List ℕ
print_row b r c zero later = later
print_row b r c (suc n) later = symbol (piece_at b (r * 8 + c)) ∷ print_row b r (c + 1) n later

-- The rows from `r` down.
unfoldable pub print_rows : ChessBoard → ℕ → List ℕ
print_rows b zero = print_row b 0 0 8 []
print_rows b (suc r) = print_row b (suc r) 0 8 (b'/' ∷ print_rows b r)

-- The squares before column `c` of row `r`, in the order of the text.
abbrev pub covered : ℕ → ℕ → ℕ → Bool
covered r c s = ltb r (s / 8) || (s / 8 == r && ltb (s % 8) c)

-- What a look shows of a square that has been read; a flag is not read.
abbrev pub shown : Bool → Look → Bool → Look
shown on l is_inner = record {
  ours = on && l.ours;
  theirs = on && l.theirs;
  rook_like = on && l.rook_like;
  bishop_like = on && l.bishop_like;
  pawn_like = on && l.pawn_like && is_inner;
}

-- The board while the squares before column `c` of row `r` have been read.
pub record Partial (b p : ChessBoard) (r c : ℕ) : Type 0 where
  pub looks : (s : ℕ) → s < 64 → look p s ≡ shown (covered r c s) (look b s) (inner s)
  pub our_king : covered r c b.our_king ≡ true → p.our_king ≡ b.our_king
  pub their_king : covered r c b.their_king ≡ true → p.their_king ≡ b.their_king

-- The look of a piece, and of a free square.
abbrev pub piece_look : Option (Side × Kind) → Look
piece_look none = record {
  ours = false;
  theirs = false;
  rook_like = false;
  bishop_like = false;
  pawn_like = false;
}
piece_look (some (side, k)) = record {
  ours = is_us side;
  theirs = not (is_us side);
  rook_like = marks_rook k;
  bishop_like = marks_bishop k;
  pawn_like = marks_pawn k;
}

-- The symbols of the pieces are neither strokes nor digits.
letter_plain :
    (side : Side) (k : Kind)
    → ((piece_letter side k == b'/') ≡ false) × (is_digit (piece_letter side k) ≡ false)
unfolding piece_letter
letter_plain side k = ground arith

pub put_pieces-letter :
    (p : ChessBoard) (r c : ℕ) (side : Side) (k : Kind) (xs : List ℕ)
    → r < 8
    → c < 8
    → put_pieces (piece_letter side k ∷ xs) r c p
      ≡ put_pieces xs r (c + 1) (placed p (r * 8 + c) side k)
unfolding put_pieces
put_pieces-letter p r c side k xs hr hc =
    let (stroke, digit) = letter_plain side k in
    let fits : leb 8 c ≡ false = ground arith in
    let same : square_of r c ≡ r * 8 + c = omega arith in
    rw (stroke, digit, fits, same, put_piece-placed p (r * 8 + c) side k) refl

pub put_pieces-stroke :
    (p : ChessBoard) (r c : ℕ) (xs : List ℕ)
    → put_pieces (b'/' ∷ xs) (suc r) c p ≡ put_pieces xs r 0 p
unfolding put_pieces
put_pieces-stroke p r c xs = ground arith

-- A piece read on a square that had none.
look_added :
    (here before after is_inner : Bool) (lp l lx : Look)
    → lp ≡ shown before l is_inner
    → after ≡ (before || here)
    → (before && here) ≡ false
    → (here ≡ true → shown true l is_inner ≡ lx)
    → record {
      ours = (here && lx.ours) || lp.ours;
      theirs = (here && lx.theirs) || lp.theirs;
      rook_like = (here && lx.rook_like) || lp.rook_like;
      bishop_like = (here && lx.bishop_like) || lp.bishop_like;
      pawn_like = (here && lx.pawn_like) || lp.pawn_like;
    }
      ≡ shown after l is_inner
look_added true before after is_inner lp l lx e now apart h =
    let same = h refl in ground (arith, e, now, apart, same)
look_added false before after is_inner lp l lx e now apart h = ground (arith, e, now, apart)

module _ (b : ChessBoard) (v : IsValid b) where
  pub piece_look-shown :
      (s : ℕ) → s < 64 → piece_look (piece_at b s) ≡ shown true (look b s) (inner s)
  unfolding look piece_at kind_at kind_of
  piece_look-shown s h =
      let there = v.squares s h in
      ground (arith, there.apart, there.placed, there.pawn_plain, there.king_plain)

  king_there :
      (s : ℕ) (side : Side) (k : Kind)
      → s < 64
      → piece_at b s ≡ some (side, k)
      → ((is_us side && is_king k) ≡ (b.our_king == s))
        × ((not (is_us side) && is_king k) ≡ (b.their_king == s))
  unfolding look piece_at kind_at kind_of
  king_there s side k h e =
      let there = v.squares s h in
      let ours : b.our_king ≡ s → (look b s).ours ≡ true =
        λ q. subst (λ x. (look b x).ours ≡ true) q v.our_king_ours in
      let theirs : b.their_king ≡ s → (look b s).theirs ≡ true =
        λ q. subst (λ x. (look b x).theirs ≡ true) q v.their_king_theirs in
      ground (arith, there.apart, e, ours, theirs)

  pub no_king :
      (s : ℕ) → piece_at b s ≡ none → ((b.our_king == s) ≡ false) × ((b.their_king == s) ≡ false)
  unfolding look piece_at
  no_king s e =
      let ours : b.our_king ≡ s → (look b s).ours ≡ true =
        λ q. subst (λ x. (look b x).ours ≡ true) q v.our_king_ours in
      let theirs : b.their_king ≡ s → (look b s).theirs ≡ true =
        λ q. subst (λ x. (look b x).theirs ≡ true) q v.their_king_theirs in
      ground (arith, e, ours, theirs)

  pub free_square :
      (p : ChessBoard) (r c : ℕ)
      → r < 8
      → c < 8
      → piece_at b (r * 8 + c) ≡ none
      → Partial b p r c
      → Partial b p r (c + 1)
  unfolding look
  free_square p r c hr hc e before = record {
    looks = λ s hs.
        let here : r * 8 + c ≡ s → shown true (look b s) (inner s) ≡ piece_look none =
          λ q. sym (piece_look-shown s hs) ∙ ap piece_look (ap (piece_at b) (sym q) ∙ e) in
        before.looks s hs ∙ ground (arith, here);
    our_king = λ k. before.our_king (ground (arith, k, no_king (r * 8 + c) e));
    their_king = λ k. before.their_king (ground (arith, k, no_king (r * 8 + c) e));
  }

  pub piece_square :
      (p : ChessBoard) (r c : ℕ) (side : Side) (k : Kind)
      → r < 8
      → c < 8
      → piece_at b (r * 8 + c) ≡ some (side, k)
      → Partial b p r c
      → Partial b (placed p (r * 8 + c) side k) r (c + 1)
  unfolding look
  piece_square p r c side k hr hc e before =
      let sq = r * 8 + c in
      let there = king_there sq side k (omega arith) e in
      record {
        looks = λ s hs.
            let here : sq ≡ s → shown true (look b s) (inner s) ≡ piece_look (some (side, k)) =
              λ q. sym (piece_look-shown s hs) ∙ ap piece_look (ap (piece_at b) (sym q) ∙ e) in
            look-placed p sq s (omega arith) hs side k
            ∙ look_added (sq == s) (covered r c s) (covered r (c + 1) s) (inner s) (look p s)
                (look b s) (piece_look (some (side, k))) (before.looks s hs) (ground arith)
                (ground arith) (λ q. here (ground (arith, q)));
        our_king = λ q. our_king-placed p sq side k ∙ ground (arith, before.our_king, there.0, q);
        their_king =
            λ q. their_king-placed p sq side k ∙ ground (arith, before.their_king, there.1, q);
      }
