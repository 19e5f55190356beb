-- ===== src/Chess/Attacks/Magic/Lookup.antt =====
-- The table lookups against the walks along the rays.
use fat_fritz.Common.{
  ℕ, zero, suc, ◌+◌, ◌≤◌, ◌<◌, bit_and, List, [], ◌∷◌, ◌≡◌, refl, sym, ap, ◌∙◌, arith, inl, inr,
  length, get_or, none, some, Option-cases,
}
use mathlib.Core.Option.{some-injective}
use fat_fritz.Bits.{IsU64}
use fat_fritz.Utils.BitIter.{iterate_bits}
use fat_fritz.Chess.BitBoard.{BitBoard}
use fat_fritz.Chess.Square.{BoardSquare}
use fat_fritz.Chess.Attacks.Tables.{Direction}
use fat_fritz.Chess.Attacks.Rays.{sliding_attacks, occupancy_mask}
use fat_fritz.Chess.Attacks.Rays.Laws.{sliding_attacks-mask, occupancy_mask-IsU64}
use fat_fritz.Chess.Attacks.Rays.Reach.{NeverEmpty}
use fat_fritz.Chess.Attacks.Magic.{
  MagicParams, Table, params_of, entry_count, build_square, build_attacks_table, fill_entries,
  clear_entries, magic_index, no_params,
}
use fat_fritz.Chess.Attacks.Magic.Occupancy.{gather, gather-lt, occupancy_at-gather}
use fat_fritz.Chess.Attacks.Magic.Fill.{
  magic_index-lt, iterate_bits-length, clear_entries_frame, fill_covers, fill_frame,
}

-- The entry that a lookup reads.
abbrev pub read_entry : MagicParams → Table → BitBoard → BitBoard
read_entry p table pieces = table (p.table_offset + magic_index p (bit_and pieces p.mask))

module _ (ds : List Direction) (sq : BoardSquare) (magic offset : ℕ) where
  abbrev here : MagicParams
  here = params_of ds sq magic offset

  here_mask : (here.mask ≡ occupancy_mask ds sq) × (here.table_offset ≡ offset)
  unfolding params_of
  here_mask = (refl, refl)

  -- The lookups of the square stay in its own part of the table.
  read_in_part : (o : BitBoard) → magic_index here o < entry_count here
  read_in_part o =
      magic_index-lt here (length (iterate_bits here.mask)) o (iterate_bits-length here.mask)
        (unfold params_of in refl)

  build_square_lem :
      (t t' : Table)
      → NeverEmpty ds
      → sq < 64
      → build_square ds sq here t ≡ some t'
      → ((pieces : BitBoard)
          → IsU64 pieces
          → read_entry here t' pieces ≡ sliding_attacks ds sq pieces)
        × ((e : ℕ) → e < offset → t' e ≡ t e)
  build_square_lem t t' never hs h = (reads, frame)
    where
      squares : List ℕ
      squares = iterate_bits here.mask

      cleared : Table
      cleared = clear_entries (entry_count here) here.table_offset t

      filled : fill_entries ds sq here squares (entry_count here) 0 cleared ≡ some t'
      filled = unfold build_square in h

      mask_small : IsU64 here.mask
      mask_small = rw here_mask.0 (occupancy_mask-IsU64 ds sq)

      reads :
          (pieces : BitBoard)
          → IsU64 pieces
          → read_entry here t' pieces ≡ sliding_attacks ds sq pieces
      reads pieces hp =
          let number = gather squares pieces in
          let found = occupancy_at-gather here.mask pieces mask_small hp in
          let covered =
            fill_covers ds sq here squares (λ o. never sq o hs) (entry_count here) 0 number cleared
              t' (omega arith) (omega (arith, gather-lt squares pieces)) filled in
          ap (λ o. t' (here.table_offset + magic_index here o)) (sym found)
          ∙ covered
          ∙ ap (sliding_attacks ds sq) (found ∙ ap (bit_and pieces) here_mask.0)
          ∙ sliding_attacks-mask ds sq pieces hp

      frame : (e : ℕ) → e < offset → t' e ≡ t e
      frame e lo =
          fill_frame ds sq here squares (entry_count here) 0 cleared t' e (rw here_mask.1 lo) filled
          ∙ clear_entries_frame (entry_count here) here.table_offset t e (rw here_mask.1 lo)

-- What a successful BuildAttacksTable has done.
abbrev pub Built : List Direction → ℕ → BoardSquare → ℕ → Table → List MagicParams → Table → Type 0
Built ds count sq offset t ps t' =
    ((k : ℕ)
      → k < count
      → (pieces : BitBoard) → IsU64 pieces
      → read_entry (get_or ps k no_params) t' pieces ≡ sliding_attacks ds (sq + k) pieces)
    × ((e : ℕ) → e < offset → t' e ≡ t e)

-- A round that does not throw, and the rounds after it.
build_step :
    (ds : List Direction) (magic : ℕ) (magics : List ℕ) (sq offset : ℕ) (t : Table)
    (ps : List MagicParams) (t' : Table)
    → build_attacks_table ds (magic ∷ magics) sq offset t ≡ some (ps, t')
    → (t1 : Table) × (ps' : List MagicParams) × (build_square ds sq (params_of ds sq magic offset) t
        ≡ some t1)
      × (build_attacks_table ds magics
            (sq + 1)
            (offset + entry_count (params_of ds sq magic offset))
            t1
          ≡ some (ps', t'))
      × (ps ≡ params_of ds sq magic offset ∷ ps')
unfolding build_attacks_table
build_step ds magic magics sq offset t ps t' h =
    let p = params_of ds sq magic offset in
    let whole = build_attacks_table ds (magic ∷ magics) sq offset t in
    elim (Option-cases (build_square ds sq p t)) [
      | inl fails ↦
          let dead : whole ≡ none = rw (fails, build_attacks_table) in absurd (cc (h, dead))
      | inr (t1, e) ↦
          elim (Option-cases (build_attacks_table ds magics (sq + 1) (offset + entry_count p) t1)) [
            | inl fails ↦
                let dead : whole ≡ none = rw (e, build_attacks_table, fails) in
                absurd (cc (h, dead))
            | inr ((ps', t2), e') ↦
                let done : whole ≡ some (p ∷ ps', t2) = rw (e, build_attacks_table, e') in
                let parts = some-injective _ _ (sym h ∙ done) in
                (
                  t1,
                  ps',
                  e,
                  e' ∙ ap (λ x. some (ps', x)) (ap (λ x. x.1) (sym parts)),
                  ap (λ x. x.0) parts,
                )
          ]
    ]

empty_build :
    (ds : List Direction) (sq offset : ℕ) (t : Table) (ps : List MagicParams) (t' : Table)
    → build_attacks_table ds [] sq offset t ≡ some (ps, t')
    → t ≡ t'
unfolding build_attacks_table
empty_build ds sq offset t ps t' h = ap (λ x. x.1) (some-injective _ _ h)

read_parts :
    (ds : List Direction) (sq : ℕ) (p : MagicParams) (ps : List MagicParams) (t : Table) (count : ℕ)
    (pieces : BitBoard)
    → read_entry p t pieces ≡ sliding_attacks ds sq pieces
    → ((k : ℕ)
        → k < count
        → read_entry (get_or ps k no_params) t pieces ≡ sliding_attacks ds (sq + 1 + k) pieces)
    → (k : ℕ) → k < suc count
    → read_entry (get_or (p ∷ ps) k no_params) t pieces ≡ sliding_attacks ds (sq + k) pieces
read_parts ds sq p ps t count pieces now later zero hk =
    now ∙ ap (λ s. sliding_attacks ds s pieces) {x = sq} {y = sq + zero} (omega arith)
read_parts ds sq p ps t count pieces now later (suc k) hk =
    later k (omega arith)
    ∙ ap (λ s. sliding_attacks ds s pieces) {x = sq + 1 + k} {y = sq + suc k} (omega arith)

-- If BuildAttacksTable does not throw, then every lookup finds the squares that a walk along the
-- rays attacks: for each square it built, and any pieces on the board.
pub build_attacks_table-Built :
    (ds : List Direction) (magics : List ℕ) (sq offset : ℕ) (t : Table) (ps : List MagicParams)
    (t' : Table)
    → NeverEmpty ds
    → sq + length magics ≤ 64
    → build_attacks_table ds magics sq offset t ≡ some (ps, t')
    → Built ds (length magics) sq offset t ps t'
build_attacks_table-Built ds [] sq offset t ps t' never small h =
    (λ k hk. absurd (omega arith), λ e lo. ap (λ f. f e) (sym (empty_build ds sq offset t ps t' h)))
build_attacks_table-Built ds (magic ∷ magics) sq offset t ps t' never small h =
    let p = params_of ds sq magic offset in
    let (t1, ps', now, later, parts) = build_step ds magic magics sq offset t ps t' h in
    let (reads, frame) = build_square_lem ds sq magic offset t t1 never (omega arith) now in
    let (reads', frame') =
      build_attacks_table-Built ds magics (sq + 1) (offset + entry_count p) t1 ps' t' never
        (omega arith) later in
    (
      λ k hk pieces hp.
          ap (λ l. read_entry (get_or l k no_params) t' pieces) parts
          ∙ read_parts ds sq p ps' t' (length magics) pieces
              (frame' _ (
                  omega (
                    arith,
                    read_in_part ds sq magic offset (bit_and pieces p.mask),
                    (here_mask ds sq magic offset).1,
                  ))
                ∙ reads pieces hp)
              (λ j hj. reads' j hj pieces hp) k hk,
      λ e lo. frame' e (omega arith) ∙ frame e lo,
    )
