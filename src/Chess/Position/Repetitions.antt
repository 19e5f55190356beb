-- ===== src/Chess/Position/Repetitions.antt =====
-- Repetitions in a history of positions.
use fat_fritz.Common.{
  ℕ, ◌==◌, ◌≢◌, ◌+◌, ◌<◌, ◌≤◌, Bool, true, false, ltb, List, [], ◌∷◌, length, ◌≡◌, refl, arith,
  Bool-cases, inl, inr, ◌⊎◌,
}
use fat_fritz.Chess.Board.{ChessBoard}
use fat_fritz.Chess.Position.{
  Position, same_board, find_repetition, did_repeat_since_last_zeroing_move,
}

-- An earlier position with the same side to move shows the board, and no move in between was
-- zeroing: `skip` and `distance` as in the search.
pub data Repeats (board : ChessBoard) : Bool → ℕ → List Position → ℕ → ℕ → Type 0 where
  here :
      (p : Position) (ps : List Position) (distance : ℕ)
      → same_board p.us_board board ≡ true
      → Repeats board false distance (p ∷ ps) (1 + p.repetitions) distance
  skipped :
      (p : Position) (ps : List Position) (distance reps cycle : ℕ)
      → Repeats board false (distance + 1) ps reps cycle
      → Repeats board true distance (p ∷ ps) reps cycle
  further :
      (p : Position) (ps : List Position) (distance reps cycle : ℕ)
      → same_board p.us_board board ≡ false
      → 2 ≤ p.rule50_ply
      → Repeats board true (distance + 1) ps reps cycle
      → Repeats board false distance (p ∷ ps) reps cycle

-- The search of a history answers (0, 0), or the repetitions and the distance of a position that
-- repeats the board.
pub find_repetition-Repeats :
    (board : ChessBoard) (skip : Bool) (distance : ℕ) (ps : List Position)
    → (find_repetition board skip distance ps ≡ (0, 0))
      ⊎ Repeats board skip distance ps
          (find_repetition board skip distance ps).0
          (find_repetition board skip distance ps).1
unfolding find_repetition
find_repetition-Repeats board skip distance [] = inl refl
find_repetition-Repeats board true distance (p ∷ ps) =
    elim (find_repetition-Repeats board false (distance + 1) ps) [
      | inl nothing ↦ inl nothing
      | inr found ↦ inr (skipped p ps distance _ _ found)
    ]
find_repetition-Repeats board false distance (p ∷ ps) =
    elim (Bool-cases (same_board p.us_board board)) [
      | inl same ↦ rw (same) (inr (here p ps distance same))
      | inr other ↦ elim (Bool-cases (ltb p.rule50_ply 2)) [
        | inl stop ↦ rw (other, stop) (inl refl)
        | inr on ↦
            rw (other, on)
              (elim (find_repetition-Repeats board true (distance + 1) ps) [
                | inl nothing ↦ inl nothing
                | inr found ↦ inr (further p ps distance _ _ other (ground (arith, on)) found)
              ])
      ]
    ]

-- If an earlier position with the same side to move shows the board, none nearer shows it, and
-- none on the way was within two plies of a zeroing move, then the search returns one more than
-- its repetitions, and its distance.
pub Repeats-find_repetition :
    (board : ChessBoard) (skip : Bool) (distance reps cycle : ℕ) (ps : List Position)
    → Repeats board skip distance ps reps cycle
    → find_repetition board skip distance ps ≡ (reps, cycle)
unfolding find_repetition
Repeats-find_repetition board _ _ _ _ _ (here p ps distance same) = rw (same) refl
Repeats-find_repetition board _ _ _ _ _ (skipped p ps distance reps cycle r) =
    Repeats-find_repetition board false (distance + 1) reps cycle ps r
Repeats-find_repetition board _ _ _ _ _ (further p ps distance reps cycle other far r) =
    let on : ltb p.rule50_ply 2 ≡ false = ground (arith, far) in
    rw (other, on) (Repeats-find_repetition board true (distance + 1) reps cycle ps r)

-- The distance of a repetition is even, at least 2 more than the plies searched already.
pub Repeats-distance :
    (board : ChessBoard) (skip : Bool) (distance reps cycle : ℕ) (ps : List Position)
    → Repeats board skip distance ps reps cycle
    → (distance ≤ cycle) × (1 ≤ reps) × (cycle < distance + length ps)
Repeats-distance board _ _ _ _ _ (here p ps distance same) = omega arith
Repeats-distance board _ _ _ _ _ (skipped p ps distance reps cycle r) =
    omega (arith, Repeats-distance board false (distance + 1) reps cycle ps r)
Repeats-distance board _ _ _ _ _ (further p ps distance reps cycle other far r) =
    omega (arith, Repeats-distance board true (distance + 1) reps cycle ps r)

-- A repeated position, the latest zeroing one or later.
pub data Repeated : List Position → Type 0 where
  latest : (p : Position) (ps : List Position) → 0 < p.repetitions → Repeated (p ∷ ps)
  before : (p : Position) (ps : List Position) → p.rule50_ply ≢ 0 → Repeated ps → Repeated (p ∷ ps)

did_repeat_sound : (h : List Position) → did_repeat_since_last_zeroing_move h ≡ true → Repeated h
unfolding did_repeat_since_last_zeroing_move
did_repeat_sound [] e = absurd (cc)
did_repeat_sound (p ∷ ps) e = elim (Bool-cases (ltb 0 p.repetitions)) [
  | inl repeated ↦ latest p ps (ground (arith, repeated))
  | inr first ↦ elim (Bool-cases (p.rule50_ply == 0)) [
    | inl zeroing ↦ absurd (ground (arith, e, first, zeroing))
    | inr other ↦
        before p ps (ground (arith, other)) (did_repeat_sound ps (ground (arith, e, first, other)))
  ]
]

did_repeat_complete : (h : List Position) → Repeated h → did_repeat_since_last_zeroing_move h ≡ true
unfolding did_repeat_since_last_zeroing_move
did_repeat_complete _ (latest p ps r) = ground (arith, r)
did_repeat_complete _ (before p ps nz r) = ground (arith, nz, did_repeat_complete ps r)

-- The answer is true exactly if a position since the latest one with a 50 moves counter of 0,
-- that one included, has repetitions.
pub did_repeat-Repeated :
    (h : List Position)
    → (did_repeat_since_last_zeroing_move h ≡ true → Repeated h)
      × (Repeated h → did_repeat_since_last_zeroing_move h ≡ true)
did_repeat-Repeated h = (did_repeat_sound h, did_repeat_complete h)
