-- ===== src/Chess/Attacks/Magic.antt =====
-- The magic bitboards of src/chess/board.cc, in the default build (NO_PEXT): BuildAttacksTable and
-- the lookups.
pub mod Occupancy
pub mod Fill
pub mod Lookup
use fat_fritz.Common.{
  ℕ, zero, suc, ◌+◌, ◌-◌, ◌*◌, ◌/◌, ◌%◌, ◌^◌, bit_and, List, [], ◌∷◌, ◌++◌, if◌then◌else◌, Bool,
  true, false, not, ◌&&◌, ◌==◌, ltb, leb, Option, none, some, length, get_or,
}
use fat_fritz.Utils.BitIter.{iterate_bits}
use fat_fritz.Chess.Square.{BoardSquare}
use fat_fritz.Chess.BitBoard.{BitBoard}
use fat_fritz.Chess.BitBoard
use fat_fritz.Chess.Attacks.Tables.{Direction, rook_directions, bishop_directions}
use fat_fritz.Chess.Attacks.MagicNumbers.{rook_magic_numbers, bishop_magic_numbers}
use fat_fritz.Chess.Attacks.Rays.{sliding_attacks, occupancy_mask}

-- MagicParams; the pointer into the lookup table is an index.
pub record MagicParams : Type 0 where
  pub mask : ℕ
  pub table_offset : ℕ
  pub magic_number : ℕ
  pub shift_bits : ℕ

-- A lookup table, rook_attacks_table or bishop_attacks_table.
abbrev pub Table : Type 0
Table = ℕ → BitBoard

abbrev pub update : Table → ℕ → BitBoard → Table
update table i v j = if i == j then v else table j

-- The occupancy with number `i`: one bit of `i` for each relevant square.
unfoldable pub occupancy_at : List BoardSquare → ℕ → ℕ → BitBoard → BitBoard
occupancy_at [] bit i occupancy = occupancy
occupancy_at (sq ∷ sqs) bit i occupancy =
    occupancy_at sqs (bit + 1) i (BitBoard.set_if occupancy sq (not (bit_and (2 ^ bit) i == 0)))

-- The magic index: multiply in 64 bits, and keep the top bits.
unfoldable pub magic_index : MagicParams → BitBoard → ℕ
magic_index p occupancy = occupancy * p.magic_number % 2 ^ 64 / 2 ^ p.shift_bits

-- The loop that clears the entries of a square.
unfoldable pub clear_entries : ℕ → ℕ → Table → Table
clear_entries zero i table = table
clear_entries (suc left) i table = clear_entries left (i + 1) (update table i 0)

-- The loop over the occupancies of a square, `left` of them to go from number `i`; `none` is the
-- exception "Invalid magic number!".
unfoldable pub fill_entries :
    List Direction → BoardSquare → MagicParams → List BoardSquare → ℕ → ℕ → Table → Option Table
fill_entries directions sq p squares zero i table = some table
fill_entries directions sq p squares (suc left) i table =
    let occupancy = occupancy_at squares 0 i 0 in
    let attacks = sliding_attacks directions sq occupancy in
    let entry = p.table_offset + magic_index p occupancy in
    let rest = fill_entries directions sq p squares left (i + 1) (update table entry attacks) in
    if not (table entry == 0) && not (table entry == attacks) then none else rest

-- The parameters of one square.
unfoldable pub params_of : List Direction → BoardSquare → ℕ → ℕ → MagicParams
params_of directions sq magic offset =
    let mask = occupancy_mask directions sq in
    record {
      mask = mask;
      table_offset = offset;
      magic_number = magic;
      shift_bits = 64 - length (iterate_bits mask);
    }

abbrev pub entry_count : MagicParams → ℕ
entry_count p = 2 ^ length (iterate_bits p.mask)

-- One round of the loop over the squares.
unfoldable pub build_square : List Direction → BoardSquare → MagicParams → Table → Option Table
build_square directions sq p table =
    fill_entries directions sq p (iterate_bits p.mask) (entry_count p) 0
      (clear_entries (entry_count p) p.table_offset table)

-- BuildAttacksTable from square `sq` on, with the squares' magic numbers to go.
unfoldable pub build_attacks_table :
    List Direction → List ℕ → BoardSquare → ℕ → Table → Option (List MagicParams × Table)
build_attacks_table directions [] sq offset table = some ([], table)
build_attacks_table directions (magic ∷ magics) sq offset table =
    let p = params_of directions sq magic offset in
    elim (build_square directions sq p table) [
      | none ↦ none
      | some table' ↦
          elim (build_attacks_table directions magics (sq + 1) (offset + entry_count p) table') [
            | none ↦ none
            | some (ps, table'') ↦ some (p ∷ ps, table'')
          ]
    ]

-- The four arrays that InitializeMagicBitboards fills.
pub record Magics : Type 0 where
  pub rook_magic_params : List MagicParams
  pub rook_attacks_table : Table
  pub bishop_magic_params : List MagicParams
  pub bishop_attacks_table : Table

-- Both tables, if neither call threw.
unfoldable pub both_tables :
    Option (List MagicParams × Table) → Option (List MagicParams × Table) → Option Magics
both_tables (some (rook_ps, rook_table)) (some (bishop_ps, bishop_table)) = some (record {
  rook_magic_params = rook_ps;
  rook_attacks_table = rook_table;
  bishop_magic_params = bishop_ps;
  bishop_attacks_table = bishop_table;
})
both_tables _ _ = none

-- InitializeMagicBitboards(). The arrays start out zeroed.
unfoldable pub initialize_magic_bitboards : Option Magics
initialize_magic_bitboards =
    both_tables (build_attacks_table rook_directions rook_magic_numbers 0 0 (λ _. 0))
      (build_attacks_table bishop_directions bishop_magic_numbers 0 0 (λ _. 0))

abbrev no_params : MagicParams
no_params = record { mask = 0; table_offset = 0; magic_number = 0; shift_bits = 0 }

-- The lookup of GetRookAttacks and GetBishopAttacks.
unfoldable pub lookup_attacks : List MagicParams → Table → BoardSquare → BitBoard → BitBoard
lookup_attacks ps table sq pieces =
    let p = get_or ps sq no_params in table (p.table_offset + magic_index p (bit_and pieces p.mask))

unfoldable pub get_rook_attacks : Magics → BoardSquare → BitBoard → BitBoard
get_rook_attacks m sq pieces = lookup_attacks m.rook_magic_params m.rook_attacks_table sq pieces

unfoldable pub get_bishop_attacks : Magics → BoardSquare → BitBoard → BitBoard
get_bishop_attacks m sq pieces =
    lookup_attacks m.bishop_magic_params m.bishop_attacks_table sq pieces
