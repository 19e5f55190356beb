-- ===== src/Chess/Position/History.antt =====
-- The operations of PositionHistory together.
use fat_fritz.Common.{
  ℕ, min, true, false, ltb, [], ◌∷◌, ◌++◌, none, some, length, length-append, ◌≡◌, refl, arith,
}
use fat_fritz.Chess.Move.{Move}
use fat_fritz.Chess.Position.{Position, append, pop, trim, PositionHistory}

-- Appending a move to a history that is not empty and popping it gives the history back.
pub pop-append :
    (old_repetitions old_cycle : ℕ) (last : Position) (earlier : PositionHistory) (m : Move)
    → (elim (append old_repetitions old_cycle (last ∷ earlier) m) [ none ↦ none | some h ↦ pop h ])
      ≡ some (last ∷ earlier)
unfolding append pop
pop-append old_repetitions old_cycle last earlier m = refl

-- Trimming to a size keeps that many positions, or all where there are fewer.
pub length-trim : (size : ℕ) (h : PositionHistory) → length (trim size h) ≡ min size (length h)
unfolding trim
length-trim size [] = omega arith
length-trim size (p ∷ ps) = ground (arith, length-trim size ps)

-- Trimming a history that went on to its earlier length gives the earlier history back.
pub trim-append : (h later : PositionHistory) → trim (length h) (later ++ h) ≡ h
unfolding trim
trim-append [] [] = refl
trim-append (p ∷ ps) [] =
    let here : ltb (length (p ∷ ps)) (length (p ∷ ps)) ≡ false = ground arith in rw (here) refl
trim-append h (p ∷ later) =
    let shorter : ltb (length h) (length (p ∷ later ++ h)) ≡ true =
      ground (arith, length-append later h) in
    rw (shorter) (trim-append h later)
