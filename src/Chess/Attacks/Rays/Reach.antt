-- ===== src/Chess/Attacks/Rays/Reach.antt =====
-- A slider that has a square beside it attacks something.
use fat_fritz.Common.{
  ℕ, ◌<◌, List, [], ◌∷◌, Bool, true, false, ◌||◌, ◌≡◌, ◌≢◌, refl, sym, ap, ◌∙◌, arith, Bool-cases,
  inl, inr, all_below, all_below_sound,
}
use fat_fritz.Common.Int.{pos, ◌+ℤ◌}
use fat_fritz.Bits.{testbit, testbit-zero}
use fat_fritz.Chess.Square.{BoardSquare, square_at, is_valid, row, col}
use fat_fritz.Chess.BitBoard.{BitBoard}
use fat_fritz.Chess.Attacks.Tables.{Direction, rook_directions, bishop_directions}
use fat_fritz.Chess.Attacks.Rays.{walk, walk_all, sliding_attacks}
use fat_fritz.Chess.Attacks.Rays.Laws.{square_at-lt, walk_grows, walk_first}

-- Some direction stays on the board.
can_step : List Direction → BoardSquare → Bool
can_step [] sq = false
can_step ((dr, dc) ∷ ds) sq = is_valid (pos (row sq) +ℤ dr) (pos (col sq) +ℤ dc) || can_step ds sq

walk_all_grows :
    (sq : BoardSquare) (ds : List Direction) (o a : BitBoard) (i : ℕ)
    → i < 64
    → testbit a i ≡ true
    → testbit (walk_all sq ds o a) i ≡ true
unfolding walk_all
walk_all_grows sq [] o a i hi h = h
walk_all_grows sq (d ∷ ds) o a i hi h =
    walk_all_grows sq ds o _ i hi (walk_grows 8 (pos (row sq)) (pos (col sq)) d o a i hi h)

walk_all_hits :
    (sq : BoardSquare) (ds : List Direction) (o a : BitBoard)
    → can_step ds sq ≡ true
    → (i : ℕ) × (i < 64) × (testbit (walk_all sq ds o a) i ≡ true)
unfolding walk_all can_step
walk_all_hits sq [] o a h = cc
walk_all_hits sq ((dr, dc) ∷ ds) o a h =
    let r = pos (row sq) in
    let c = pos (col sq) in
    elim (Bool-cases (is_valid (r +ℤ dr) (c +ℤ dc))) [
      | inl inside ↦
          let small = square_at-lt (r +ℤ dr) (c +ℤ dc) inside in
          (
            square_at (r +ℤ dr) (c +ℤ dc),
            small,
            walk_all_grows sq ds o _ _ small (walk_first 7 r c dr dc o a inside),
          )
      | inr outside ↦ walk_all_hits sq ds o (walk 8 r c (dr, dc) o a) (ground arith)
    ]

abbrev pub NeverEmpty : List Direction → Type 0
NeverEmpty ds = (sq : BoardSquare) (o : BitBoard) → sq < 64 → sliding_attacks ds sq o ≢ 0

NeverEmpty-of_steps : (ds : List Direction) → all_below 64 (can_step ds) ≡ true → NeverEmpty ds
unfolding sliding_attacks
NeverEmpty-of_steps ds table sq o h e =
    let (i, hi, bit) = walk_all_hits sq ds o 0 (all_below_sound 64 _ sq table h) in
    cc (sym bit ∙ ap (λ x. testbit x i) e ∙ testbit-zero i)

pub rook-NeverEmpty : NeverEmpty rook_directions
unfolding all_below can_step
rook-NeverEmpty = NeverEmpty-of_steps rook_directions refl

pub bishop-NeverEmpty : NeverEmpty bishop_directions
unfolding all_below can_step
bishop-NeverEmpty = NeverEmpty-of_steps bishop_directions refl
