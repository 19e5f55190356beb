-- ===== src/Chess/Attacks/Rays/Laws.antt =====
-- A walk reads the occupancy only on the squares of its mask.
use fat_fritz.Common.{
  ℕ, zero, suc, ◌<◌, bit_and, List, [], ◌∷◌, if◌then◌else◌, true, false, ◌≡◌, refl, sym, ap, ap₂,
  ◌∙◌, arith, Bool-cases, inl, inr,
}
use fat_fritz.Common.Int.{ℤ, pos, negsuc, ◌+ℤ◌}
use fat_fritz.Bits.{testbit, IsU64, testbit-bit_and, bit_and-IsU64}
use fat_fritz.Chess.Square.{BoardSquare, square_at, is_valid, row, col}
use fat_fritz.Chess.BitBoard.{BitBoard}
use fat_fritz.Chess.BitBoard
use fat_fritz.Chess.BitBoard.Laws.{testbit-set, get-eq-testbit, set-IsU64, set_grows}
use fat_fritz.Chess.Attacks.Tables.{Direction}
use fat_fritz.Chess.Attacks.Rays.{
  walk, mask_walk, walk_all, mask_walk_all, sliding_attacks, occupancy_mask,
}

pub square_at-lt : (r c : ℤ) → is_valid r c ≡ true → square_at r c < 64
square_at-lt (pos r) (pos c) h = ground arith
square_at-lt (pos r) (negsuc c) h = cc
square_at-lt (negsuc r) c h = cc

pub walk-IsU64 :
    (fuel : ℕ) (r c : ℤ) (d : Direction) (o a : BitBoard) → IsU64 a → IsU64 (walk fuel r c d o a)
unfolding walk
walk-IsU64 zero r c d o a h = h
walk-IsU64 (suc fuel) r c (dr, dc) o a h =
    let here = set-IsU64 a (square_at (r +ℤ dr) (c +ℤ dc)) h in
    let there = walk-IsU64 fuel (r +ℤ dr) (c +ℤ dc) (dr, dc) o _ here in
    elim (Bool-cases (is_valid (r +ℤ dr) (c +ℤ dc))) [
      | inl inside ↦ rw inside (elim (Bool-cases (BitBoard.get o (square_at (r +ℤ dr) (c +ℤ dc)))) [
        | inl blocked ↦ rw blocked here
        | inr free ↦ rw free there
      ])
      | inr outside ↦ rw outside h
    ]

-- A walk only adds squares.
pub walk_grows :
    (fuel : ℕ) (r c : ℤ) (d : Direction) (o a : BitBoard) (i : ℕ)
    → i < 64
    → testbit a i ≡ true
    → testbit (walk fuel r c d o a) i ≡ true
unfolding walk
walk_grows zero r c d o a i hi h = h
walk_grows (suc fuel) r c (dr, dc) o a i hi h =
    let dest = square_at (r +ℤ dr) (c +ℤ dc) in
    elim (Bool-cases (is_valid (r +ℤ dr) (c +ℤ dc))) [
      | inl inside ↦
          let here : testbit (BitBoard.set a dest) i ≡ true =
            ground (arith, testbit-set a dest i (square_at-lt _ _ inside) hi) in
          ground
            (arith, walk_grows fuel (r +ℤ dr) (c +ℤ dc) (dr, dc) o (BitBoard.set a dest) i hi here)
      | inr outside ↦ rw outside h
    ]

-- The first square of a ray is attacked, occupied or not.
pub walk_first :
    (fuel : ℕ) (r c dr dc : ℤ) (o a : BitBoard)
    → is_valid (r +ℤ dr) (c +ℤ dc) ≡ true
    → testbit (walk (suc fuel) r c (dr, dc) o a) (square_at (r +ℤ dr) (c +ℤ dc)) ≡ true
walk_first fuel r c dr dc o a inside =
    let dest = square_at (r +ℤ dr) (c +ℤ dc) in
    let small : dest < 64 = square_at-lt _ _ inside in
    let here : testbit (BitBoard.set a dest) dest ≡ true =
      ground (arith, testbit-set a dest dest small small) in
    let there =
      walk_grows fuel (r +ℤ dr) (c +ℤ dc) (dr, dc) o (BitBoard.set a dest) dest small here in
    unfold walk in ground (arith, here, there)

walk_at_edge :
    (fuel : ℕ) (r c dr dc : ℤ) (o a : BitBoard)
    → is_valid (r +ℤ dr) (c +ℤ dc) ≡ false
    → walk fuel r c (dr, dc) o a ≡ a
unfolding walk
walk_at_edge zero r c dr dc o a h = refl
walk_at_edge (suc fuel) r c dr dc o a h = rw h

mask_walk_grows :
    (fuel : ℕ) (r c : ℤ) (d : Direction) (m : BitBoard) (i : ℕ)
    → testbit m i ≡ true
    → testbit (mask_walk fuel r c d m) i ≡ true
unfolding mask_walk
mask_walk_grows zero r c d m i h = h
mask_walk_grows (suc fuel) r c (dr, dc) m i h =
    let dest = square_at (r +ℤ dr) (c +ℤ dc) in
    let there =
      mask_walk_grows fuel (r +ℤ dr) (c +ℤ dc) (dr, dc) (BitBoard.set m dest) i
        (set_grows m dest i h) in
    elim (Bool-cases (is_valid (r +ℤ dr +ℤ dr) (c +ℤ dc +ℤ dc))) [
      | inl more ↦ rw more there
      | inr last ↦ rw last h
    ]

mask_walk_next :
    (fuel : ℕ) (r c dr dc : ℤ) (m : BitBoard)
    → is_valid (r +ℤ dr +ℤ dr) (c +ℤ dc +ℤ dc) ≡ true
    → mask_walk (suc fuel) r c (dr, dc) m
      ≡ mask_walk fuel (r +ℤ dr) (c +ℤ dc) (dr, dc) (BitBoard.set m (square_at (r +ℤ dr) (c +ℤ dc)))
unfolding mask_walk
mask_walk_next fuel r c dr dc m h = rw h

walk_step :
    (fuel : ℕ) (r c dr dc : ℤ) (o a : BitBoard)
    → is_valid (r +ℤ dr) (c +ℤ dc) ≡ true
    → let dest = square_at (r +ℤ dr) (c +ℤ dc) in
      walk (suc fuel) r c (dr, dc) o a ≡ (
        if BitBoard.get o dest
        then BitBoard.set a dest
        else walk fuel (r +ℤ dr) (c +ℤ dc) (dr, dc) o (BitBoard.set a dest))
unfolding walk
walk_step fuel r c dr dc o a h = rw h

-- Two occupancies that agree on the mask of a ray give the same attacks along it.
pub walk_agree :
    (fuel : ℕ) (r c : ℤ) (d : Direction) (o o' m a : BitBoard)
    → ((s : ℕ)
        → s < 64
        → testbit (mask_walk fuel r c d m) s ≡ true
        → BitBoard.get o s ≡ BitBoard.get o' s)
    → walk fuel r c d o a ≡ walk fuel r c d o' a
walk_agree zero r c d o o' m a same = unfold walk in refl
walk_agree (suc fuel) r c (dr, dc) o o' m a same =
    let dest = square_at (r +ℤ dr) (c +ℤ dc) in
    let step = λ (inside : is_valid (r +ℤ dr) (c +ℤ dc) ≡ true) (x : BitBoard).
      walk_step fuel r c dr dc x a inside in
    elim (Bool-cases (is_valid (r +ℤ dr) (c +ℤ dc))) [
      | inr outside ↦
          walk_at_edge (suc fuel) r c dr dc o a outside
          ∙ sym (walk_at_edge (suc fuel) r c dr dc o' a outside)
      | inl inside ↦ elim (Bool-cases (is_valid (r +ℤ dr +ℤ dr) (c +ℤ dc +ℤ dc))) [
        | inr last ↦ ground (
          arith,
          step inside o,
          step inside o',
          walk_at_edge fuel (r +ℤ dr) (c +ℤ dc) dr dc o (BitBoard.set a dest) last,
          walk_at_edge fuel (r +ℤ dr) (c +ℤ dc) dr dc o' (BitBoard.set a dest) last,
        )
        | inl more ↦
            let next = mask_walk_next fuel r c dr dc m more in
            let small : dest < 64 = square_at-lt _ _ inside in
            let marked : testbit (BitBoard.set m dest) dest ≡ true =
              ground (arith, testbit-set m dest dest small small) in
            let here : BitBoard.get o dest ≡ BitBoard.get o' dest = same dest small (
              rw next (
                mask_walk_grows fuel (r +ℤ dr) (c +ℤ dc) (dr, dc) (BitBoard.set m dest) dest
                  marked)) in
            let there =
              walk_agree fuel (r +ℤ dr) (c +ℤ dc) (dr, dc) o o' (BitBoard.set m dest)
                (BitBoard.set a dest) (λ s hs e. same s hs (rw next e)) in
            step inside o
            ∙ ap₂ (λ b x. if b then BitBoard.set a dest else x) here there
            ∙ sym (step inside o')
      ]
    ]

mask_walk_all_grows :
    (sq : BoardSquare) (ds : List Direction) (m : BitBoard) (i : ℕ)
    → testbit m i ≡ true
    → testbit (mask_walk_all sq ds m) i ≡ true
unfolding mask_walk_all
mask_walk_all_grows sq [] m i h = h
mask_walk_all_grows sq (d ∷ ds) m i h =
    mask_walk_all_grows sq ds _ i (mask_walk_grows 8 (pos (row sq)) (pos (col sq)) d m i h)

walk_all_agree :
    (sq : BoardSquare) (ds : List Direction) (o o' m a : BitBoard)
    → ((s : ℕ)
        → s < 64
        → testbit (mask_walk_all sq ds m) s ≡ true
        → BitBoard.get o s ≡ BitBoard.get o' s)
    → walk_all sq ds o a ≡ walk_all sq ds o' a
unfolding walk_all mask_walk_all
walk_all_agree sq [] o o' m a same = refl
walk_all_agree sq (d ∷ ds) o o' m a same =
    let r = pos (row sq) in
    let c = pos (col sq) in
    let m' = mask_walk 8 r c d m in
    ap (walk_all sq ds o)
      (walk_agree 8 r c d o o' m a (λ s hs e. same s hs (mask_walk_all_grows sq ds m' s e)))
    ∙ walk_all_agree sq ds o o' m' (walk 8 r c d o' a) same

-- Squares off the mask do not matter to the attacks.
pub sliding_attacks-mask :
    (ds : List Direction) (sq : BoardSquare) (pieces : BitBoard)
    → IsU64 pieces
    → sliding_attacks ds sq (bit_and pieces (occupancy_mask ds sq)) ≡ sliding_attacks ds sq pieces
unfolding sliding_attacks occupancy_mask
sliding_attacks-mask ds sq pieces h =
    let mask = mask_walk_all sq ds 0 in
    walk_all_agree sq ds (bit_and pieces mask) pieces 0 0 λ s hs e.
      get-eq-testbit (bit_and pieces mask) s (bit_and-IsU64 pieces mask h) hs
      ∙ testbit-bit_and s pieces mask
      ∙ ground (arith, get-eq-testbit pieces s h hs)

mask_walk-IsU64 :
    (fuel : ℕ) (r c : ℤ) (d : Direction) (m : BitBoard) → IsU64 m → IsU64 (mask_walk fuel r c d m)
unfolding mask_walk
mask_walk-IsU64 zero r c d m h = h
mask_walk-IsU64 (suc fuel) r c (dr, dc) m h =
    let there =
      mask_walk-IsU64 fuel (r +ℤ dr) (c +ℤ dc) (dr, dc) _
        (set-IsU64 m (square_at (r +ℤ dr) (c +ℤ dc)) h) in
    elim (Bool-cases (is_valid (r +ℤ dr +ℤ dr) (c +ℤ dc +ℤ dc))) [
      | inl more ↦ rw more there
      | inr last ↦ rw last h
    ]

mask_walk_all-IsU64 :
    (sq : BoardSquare) (ds : List Direction) (m : BitBoard)
    → IsU64 m
    → IsU64 (mask_walk_all sq ds m)
unfolding mask_walk_all
mask_walk_all-IsU64 sq [] m h = h
mask_walk_all-IsU64 sq (d ∷ ds) m h = mask_walk_all-IsU64 sq ds _ (mask_walk-IsU64 8 _ _ d m h)

pub occupancy_mask-IsU64 : (ds : List Direction) (sq : BoardSquare) → IsU64 (occupancy_mask ds sq)
unfolding occupancy_mask
occupancy_mask-IsU64 ds sq = mask_walk_all-IsU64 sq ds 0 (omega arith)
