-- ===== src/Chess/Attacks/Magic/Fill.antt =====
-- What one square's rounds of BuildAttacksTable leave in the table.
use native.Mathlib.Nat.{pow-succ', div-lt_iff_lt-mul, mod-lt, one-le-pow}
use fat_fritz.Common.{
  ℕ, zero, suc, ◌+◌, ◌-◌, ◌*◌, ◌^◌, ◌≤◌, ◌<◌, List, ◌==◌, ◌≡◌, ◌≢◌, refl, sym, ap, ◌∙◌, arith,
  Bool-cases, inl, inr, ◌⊎◌, length, some, ==→≡,
}
use mathlib.Core.Option.{some-injective}
use fat_fritz.Utils.BitIter.{iterate, iterate_bits, advance}
use fat_fritz.Chess.BitBoard.{BitBoard}
use fat_fritz.Chess.Square.{BoardSquare}
use fat_fritz.Chess.Attacks.Tables.{Direction}
use fat_fritz.Chess.Attacks.Rays.{sliding_attacks}
use fat_fritz.Chess.Attacks.Magic.{
  MagicParams, Table, update, occupancy_at, magic_index, clear_entries, fill_entries,
}

pow_split : (n m : ℕ) → 2 ^ n * 2 ^ m ≡ 2 ^ (n + m)
pow_split zero m = ground arith
pow_split (suc n) m =
    let e : 2 ^ (suc n + m) ≡ 2 ^ suc (n + m) =
      ap (λ t. 2 ^ t) {x = suc n + m} {y = suc (n + m)} (omega arith) in
    omega (arith, e, pow-succ' 2 (n + m), ap (λ (t : ℕ). t * 2 ^ m) (pow-succ' 2 n), pow_split n m)

iterate-length : (f v : ℕ) → length (iterate f v) ≤ f
unfolding iterate
iterate-length zero v = omega arith
iterate-length (suc f) v = ground (arith, iterate-length f (advance v))

-- An index has as many bits as there are relevant squares.
pub magic_index-lt :
    (p : MagicParams) (n : ℕ) (o : BitBoard)
    → n ≤ 64
    → p.shift_bits ≡ 64 - n
    → magic_index p o < 2 ^ n
unfolding magic_index
magic_index-lt p n o h e =
    (div-lt_iff_lt-mul (one-le-pow p.shift_bits 2 (omega arith))).1
      (rw whole (mod-lt (o * p.magic_number) (omega arith)))
  where
    whole : 2 ^ n * 2 ^ p.shift_bits ≡ 2 ^ 64
    whole = pow_split n p.shift_bits ∙ ap (λ t. 2 ^ t) {x = n + p.shift_bits} {y = 64} (omega arith)

pub iterate_bits-length : (v : ℕ) → length (iterate_bits v) ≤ 64
unfolding iterate_bits
iterate_bits-length v = iterate-length 64 v

pub clear_entries_frame : (left i : ℕ) (t : Table) (e : ℕ) → e < i → clear_entries left i t e ≡ t e
unfolding clear_entries
clear_entries_frame zero i t e h = refl
clear_entries_frame (suc left) i t e h =
    clear_entries_frame left (i + 1) (update t i 0) e (omega arith) ∙ ground arith

module _ (ds : List Direction) (sq : BoardSquare) (p : MagicParams) (squares : List ℕ) where
  abbrev pub occupancy_number : ℕ → BitBoard
  occupancy_number i = occupancy_at squares 0 i 0

  abbrev pub attacks_number : ℕ → BitBoard
  attacks_number i = sliding_attacks ds sq (occupancy_number i)

  abbrev pub entry_of : ℕ → ℕ
  entry_of i = p.table_offset + magic_index p (occupancy_number i)

  -- A round that does not throw writes its entry, which held nothing or the same attacks.
  fill_step :
      (left i : ℕ) (t t' : Table)
      → fill_entries ds sq p squares (suc left) i t ≡ some t'
      → (fill_entries ds sq p squares left (i + 1) (update t (entry_of i) (attacks_number i))
          ≡ some t')
        × ((t (entry_of i) ≡ 0) ⊎ (t (entry_of i) ≡ attacks_number i))
  unfolding fill_entries
  fill_step left i t t' h = ground arith

  fill_done :
      (i : ℕ) (t t' : Table) (e : ℕ) → fill_entries ds sq p squares zero i t ≡ some t' → t' e ≡ t e
  unfolding fill_entries
  fill_done i t t' e h = sym (ap (λ f. f e) (some-injective _ _ h))

  -- What is written stays.
  fill_stays :
      (left i : ℕ) (t t' : Table) (e : ℕ)
      → t e ≢ 0
      → fill_entries ds sq p squares left i t ≡ some t'
      → t' e ≡ t e
  fill_stays zero i t t' e nz h = fill_done i t t' e h
  fill_stays (suc left) i t t' e nz h =
      let (rest, was) = fill_step left i t t' h in
      let next = update t (entry_of i) (attacks_number i) in
      let kept : next e ≡ t e = ground arith in
      fill_stays left (i + 1) next t' e (rw kept nz) rest ∙ kept

  pub fill_covers :
      ((o : BitBoard) → sliding_attacks ds sq o ≢ 0)
      → (left i j : ℕ) (t t' : Table) → i ≤ j
      → j < i + left
      → fill_entries ds sq p squares left i t ≡ some t'
      → t' (entry_of j) ≡ attacks_number j
  fill_covers never zero i j t t' lo hi h = absurd (omega arith)
  fill_covers never (suc left) i j t t' lo hi h =
      let (rest, was) = fill_step left i t t' h in
      let next = update t (entry_of i) (attacks_number i) in
      elim (Bool-cases (i == j)) [
        | inr later ↦ fill_covers never left (i + 1) j next t' (ground arith) (omega arith) rest
        | inl now ↦
            let written : next (entry_of i) ≡ attacks_number i = ground arith in
            rw (sym (==→≡ i j now)) (
              fill_stays left (i + 1) next t' (entry_of i) (rw written (never (occupancy_number i)))
                rest
              ∙ written)
      ]

  pub fill_frame :
      (left i : ℕ) (t t' : Table) (e : ℕ)
      → e < p.table_offset
      → fill_entries ds sq p squares left i t ≡ some t'
      → t' e ≡ t e
  fill_frame zero i t t' e lo h = fill_done i t t' e h
  fill_frame (suc left) i t t' e lo h =
      let (rest, was) = fill_step left i t t' h in
      let next = update t (entry_of i) (attacks_number i) in
      fill_frame left (i + 1) next t' e lo rest ∙ ground arith
