-- ===== src/Chess/Attacks/Bishops.antt =====
-- The magic numbers of the bishops, as the program has them, are valid.
use fat_fritz.Common.{ℕ, Bool, true, false, ◌<◌, List, [], Option, none, some, ◌≡◌, refl, arith}
use fat_fritz.Bits.{shl64, shr64}
use fat_fritz.Utils.BitIter.{iterate_bits, iterate, advance, get_lowest_bit, count_trailing_zeros}
use fat_fritz.Chess.Attacks.Tables.{bishop_directions}
use fat_fritz.Chess.Attacks.Rays.{
  sliding_attacks, occupancy_mask, mask_walk_all, mask_walk, walk_all, walk,
}
use fat_fritz.Chess.BitBoard
use fat_fritz.Chess.Attacks.Rays.Reach.{bishop-NeverEmpty}
use fat_fritz.Chess.Attacks.Magic.{
  MagicParams, Table, build_attacks_table, build_square, clear_entries, fill_entries, params_of,
  occupancy_at, magic_index, lookup_attacks,
}
use fat_fritz.Chess.Attacks.Sliders.{lookup_attacks-sliding}
use fat_fritz.Bits.{IsU64}
use fat_fritz.Chess.Attacks.MagicNumbers.{bishop_magic_numbers}

-- What a build returned, nothing if it threw.
abbrev pub params_in : Option (List MagicParams × Table) → List MagicParams
params_in none = []
params_in (some (ps, t)) = ps

abbrev pub table_in : Option (List MagicParams × Table) → Table
table_in none = λ _. 0
table_in (some (ps, t)) = t

abbrev pub is_built : Option (List MagicParams × Table) → Bool
is_built none = false
is_built (some _) = true

pub is_built-some :
    (o : Option (List MagicParams × Table)) → is_built o ≡ true → o ≡ some (params_in o, table_in o)
is_built-some none h = absurd (cc)
is_built-some (some (ps, t)) h = refl

abbrev pub bishop_build : Option (List MagicParams × Table)
bishop_build = build_attacks_table bishop_directions bishop_magic_numbers 0 0 (λ _. 0)

bishops_are_built : is_built bishop_build ≡ true
unfolding build_attacks_table build_square clear_entries fill_entries params_of occupancy_at
    magic_index occupancy_mask mask_walk_all mask_walk walk_all walk sliding_attacks iterate_bits
    iterate advance get_lowest_bit count_trailing_zeros BitBoard.set BitBoard.get BitBoard.set_if
    shl64 shr64
bishops_are_built = refl

-- Building the bishops' table from the magic numbers of the program does not throw, and a lookup
-- in it gives the squares that a bishop attacks, for every square of the board and every set of
-- pieces.
pub bishop_lookup-sliding :
    (sq pieces : ℕ)
    → sq < 64
    → IsU64 pieces
    → (bishop_build ≡ some (params_in bishop_build, table_in bishop_build))
      × (lookup_attacks (params_in bishop_build) (table_in bishop_build) sq pieces
          ≡ sliding_attacks bishop_directions sq pieces)
bishop_lookup-sliding sq pieces hs hp =
    let built = is_built-some bishop_build bishops_are_built in
    (
      built,
      lookup_attacks-sliding bishop_directions bishop_magic_numbers (params_in bishop_build)
          (table_in bishop_build) sq pieces bishop-NeverEmpty (omega arith) built hs hp,
    )
