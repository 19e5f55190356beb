-- ===== src/Chess/Board/Valid.antt =====
-- What a board satisfies in play, and the shape of a move that is no castling.
use fat_fritz.Common.{
  ℕ, ◌+◌, ◌<◌, ◌≤◌, Bool, true, false, not, ◌&&◌, ◌||◌, ◌==◌, ◌≡◌, ◌≢◌, sym, subst,
}
use fat_fritz.Chess.Square.{row}
use fat_fritz.Chess.Move.{Move, from, to, promotion, no_promotion}
use fat_fritz.Chess.Board.{ChessBoard}
use fat_fritz.Chess.Board.Look.{Look, look, Words, inner}

-- No square is both ours and theirs; kinds are marked on pieces only; a pawn and a king have no
-- other kind.
pub record IsPlaced (l : Look) (is_inner is_king : Bool) : Type 0 where
  pub apart : (l.ours && l.theirs) ≡ false
  pub placed :
      ((l.rook_like || l.bishop_like || l.pawn_like && is_inner) && not (l.ours || l.theirs))
      ≡ false
  pub pawn_plain : (l.pawn_like && is_inner && (l.rook_like || l.bishop_like)) ≡ false
  pub king_plain : (is_king && (l.rook_like || l.bishop_like || l.pawn_like && is_inner)) ≡ false

pub record IsValid (b : ChessBoard) : Type 0 where
  pub words : Words b
  pub our_king_small : b.our_king < 64
  pub their_king_small : b.their_king < 64
  pub our_king_ours : (look b b.our_king).ours ≡ true
  pub their_king_theirs : (look b b.their_king).theirs ≡ true
  pub squares :
      (s : ℕ) → s < 64 → IsPlaced (look b s) (inner s) (b.our_king == s || b.their_king == s)
  -- A flag on the last rank stands for a pawn of theirs that made a double step.
  pub their_flags :
      (c : ℕ)
      → c < 8
      → (look b (56 + c)).pawn_like ≡ true
      → ((look b (32 + c)).theirs ≡ true) × ((look b (32 + c)).pawn_like ≡ true)

-- The mover is a pawn.
abbrev pub moves_pawn : ChessBoard → Move → Bool
moves_pawn b m = (look b (from m)).pawn_like && inner (from m)

-- A piece of ours goes to a square that is not ours and does not hold their king. A pawn goes one
-- or two rows up, and is promoted exactly on the last row.
pub record IsPlain (b : ChessBoard) (m : Move) : Type 0 where
  pub from_small : from m < 64
  pub to_small : to m < 64
  pub ours_moves : (look b (from m)).ours ≡ true
  pub to_free : (look b (to m)).ours ≡ false
  pub no_king_taken : b.their_king ≢ to m
  pub pawn_up :
      moves_pawn b m ≡ true → (row (from m) < row (to m)) × (row (to m) ≤ row (from m) + 2)
  pub pawn_stays : promotion m ≡ no_promotion → moves_pawn b m ≡ true → row (to m) < 7
  pub pawn_promotes : promotion m ≢ no_promotion → moves_pawn b m ≡ true
  pub pawn_double : moves_pawn b m ≡ true → row (to m) ≡ row (from m) + 2 → row (from m) ≡ 1

-- What a board satisfies between ApplyMove and Mirror: a flag on our first rank stands for a pawn of
-- ours that made a double step.
pub record IsSettled (b : ChessBoard) : Type 0 where
  pub words : Words b
  pub our_king_small : b.our_king < 64
  pub their_king_small : b.their_king < 64
  pub our_king_ours : (look b b.our_king).ours ≡ true
  pub their_king_theirs : (look b b.their_king).theirs ≡ true
  pub squares :
      (s : ℕ) → s < 64 → IsPlaced (look b s) (inner s) (b.our_king == s || b.their_king == s)
  pub our_flags :
      (c : ℕ)
      → c < 8
      → (look b c).pawn_like ≡ true
      → ((look b (24 + c)).ours ≡ true) × ((look b (24 + c)).pawn_like ≡ true)

-- A board is settled when its facts hold at the squares where its kings are.
pub IsSettled-at :
    (c : ChessBoard) (k t : ℕ)
    → c.our_king ≡ k
    → c.their_king ≡ t
    → Words c
    → k < 64
    → t < 64
    → (look c k).ours ≡ true
    → (look c t).theirs ≡ true
    → ((s : ℕ) → s < 64 → IsPlaced (look c s) (inner s) (k == s || t == s))
    → ((f : ℕ)
        → f < 8
        → (look c f).pawn_like ≡ true
        → ((look c (24 + f)).ours ≡ true) × ((look c (24 + f)).pawn_like ≡ true))
    → IsSettled c
IsSettled-at c k t ek et words k_small t_small ours theirs squares flags = record {
  words = words;
  our_king_small = rw (ek) k_small;
  their_king_small = rw (et) t_small;
  our_king_ours = subst (λ x. (look c x).ours ≡ true) (sym ek) ours;
  their_king_theirs = subst (λ x. (look c x).theirs ≡ true) (sym et) theirs;
  squares = λ s hs.
      subst (λ x. IsPlaced (look c s) (inner s) (x == s || c.their_king == s)) (sym ek)
        (subst (λ x. IsPlaced (look c s) (inner s) (k == s || x == s)) (sym et) (squares s hs));
  our_flags = flags;
}
