-- ===== src/Neural/Cache/Moves.antt =====
-- The search of GetPVal finds a move wherever it starts.
use fat_fritz.Common.{
  ℕ, zero, suc, ◌+◌, ◌-◌, ◌<◌, ◌==◌, leb, false, if◌then◌else◌, List, [], ◌∷◌, map, Member, length,
  get_or, ◌≡◌, refl, ap, sym, arith, Bool-cases, inl, inr,
}
use fat_fritz.Neural.Cache.{Network, answer, find_move}

-- The rounds from one index to another, past the end.
abbrev rounds : ℕ → ℕ → ℕ → ℕ
rounds size from to = if leb from to then to - from else to + size - from

length-map : {A B : Type 0} (g : A → B) (xs : List A) → length (map g xs) ≡ length xs
length-map g [] = refl
length-map g (x ∷ xs) = ap suc (length-map g xs)

module _ {Input V : Type 0} (network : Network Input V) (moves : List (ℕ × V)) (move_id : ℕ)
    (value : V) where
  moved :
      (last_idx i : ℕ)
      → ((get_or moves last_idx (0, network.zero_val)).0 == move_id) ≡ false
      → (get_or moves i (0, network.zero_val)).0 ≡ move_id
      → (last_idx == i) ≡ false
  moved last_idx i off here =
      let same : last_idx ≡ i
          → (get_or moves last_idx (0, network.zero_val)).0
            ≡ (get_or moves i (0, network.zero_val)).0 =
        λ e. ap (λ j. (get_or moves j (0, network.zero_val)).0) e in
      ground (arith, off, here, same)

  closer :
      (last_idx i left : ℕ)
      → last_idx < length moves
      → i < length moves
      → rounds (length moves) last_idx i < suc left
      → (last_idx == i) ≡ false
      → rounds (length moves) (if last_idx + 1 == length moves then 0 else last_idx + 1) i < left
  closer last_idx i left h k far off = ground (arith, h, k, far, off)

  found_from :
      (left last_idx i : ℕ)
      → last_idx < length moves
      → i < length moves
      → (get_or moves i (0, network.zero_val)).0 ≡ move_id
      → ((j : ℕ)
          → j < length moves
          → (get_or moves j (0, network.zero_val)).0 ≡ move_id
          → (get_or moves j (0, network.zero_val)).1 ≡ value)
      → rounds (length moves) last_idx i < left
      → ((find_move network moves move_id left last_idx).0 ≡ value)
        × ((find_move network moves move_id left last_idx).1 < length moves)
  unfolding find_move
  found_from zero last_idx i h k here same far = absurd (omega arith)
  found_from (suc left) last_idx i h k here same far =
      elim (Bool-cases ((get_or moves last_idx (0, network.zero_val)).0 == move_id)) [
        | inl on ↦ rw (on) (same last_idx h (ground (arith, on)), ground (arith, h))
        | inr off ↦ rw (off) (
            found_from left (if last_idx + 1 == length moves then 0 else last_idx + 1) i
              (ground (arith, h)) k here same
              (closer last_idx i left h k far (moved last_idx i off here)))
      ]

module _ {Input V : Type 0} (network : Network Input V) where
  -- What the request holds at an index.
  answered :
      (f : ℕ → V) (move : ℕ) (ms : List ℕ)
      → Member move ms
      → (i : ℕ) × (i < length ms)
        × ((get_or {A = ℕ × V} (map (λ x. (x, f x)) ms) i (0, network.zero_val)).0 ≡ move)
  answered f move (m ∷ ms) (inl e) = (0, omega arith, sym e)
  answered f move (m ∷ ms) (inr h) =
      let (i, small, e) = answered f move ms h in (suc i, omega (arith, small), e)
  answered f move [] h = absurd h

  answers_agree :
      (f : ℕ → V) (move : ℕ) (ms : List ℕ) (j : ℕ)
      → j < length ms
      → (get_or {A = ℕ × V} (map (λ x. (x, f x)) ms) j (0, network.zero_val)).0 ≡ move
      → (get_or {A = ℕ × V} (map (λ x. (x, f x)) ms) j (0, network.zero_val)).1 ≡ f move
  answers_agree f move [] j h e = absurd (omega arith)
  answers_agree f move (m ∷ ms) zero h e = ap f e
  answers_agree f move (m ∷ ms) (suc j) h e = answers_agree f move ms j (omega arith) e

  -- In the request that ComputeBlocking makes for the cache, the search of GetPVal finds for each
  -- of the moves that were asked for the probability that the network gives it, wherever the
  -- search of an earlier call stopped.
  pub find_move-answer :
      (parent : List Input) (idx move last_idx : ℕ) (asked : List ℕ)
      → Member move asked
      → last_idx < length asked
      → (find_move network
          (answer network parent idx asked).p
          move
          (length (answer network parent idx asked).p)
          last_idx).0
        ≡ network.p_val parent idx move
  unfolding answer
  find_move-answer parent idx move last_idx asked m h =
      let f = network.p_val parent idx in
      let size = length-map {B = ℕ × V} (λ x. (x, f x)) asked in
      let (i, small, e) = answered f move asked m in
      (found_from network (map (λ x. (x, f x)) asked) move (f move)
        (length (map (λ x. (x, f x)) asked)) last_idx i (omega (arith, size, h))
        (omega (arith, size, small)) e
        (λ j hj q. answers_agree f move asked j (omega (arith, size, hj)) q)
        (ground (arith, size, h, small))).0
