-- ===== src/Chess/Tests/Attacks.antt =====
-- The attack tables and a magic bitboard.
use fat_fritz.Common.{ℕ, true, List, [], ◌∷◌, Option, some, ◌≡◌, refl, arith, get_or}
use fat_fritz.Bits.{shl64, shr64}
use fat_fritz.Utils.BitIter.{iterate_bits, iterate, advance, get_lowest_bit, count_trailing_zeros}
use fat_fritz.Chess.Attacks.Tables.{
  rook_directions, bishop_directions, rook_attacks, bishop_attacks, knight_attacks, pawn_attacks,
}
use fat_fritz.Chess.Attacks.Rays.{
  sliding_attacks, occupancy_mask, mask_walk_all, mask_walk, walk_all, walk,
}
use fat_fritz.Chess.BitBoard
use fat_fritz.Chess.Attacks.Rays.Reach.{bishop-NeverEmpty}
use fat_fritz.Chess.Attacks.Rays.Empty.{
  tables_correct, leaper_attacks, knight_steps, pawn_attackers,
}
use fat_fritz.Chess.Attacks.Magic.{
  MagicParams, Table, build_attacks_table, build_square, clear_entries, fill_entries, params_of,
  occupancy_at, magic_index, lookup_attacks,
}
use fat_fritz.Chess.Attacks.Bishops.{
  params_in, table_in, is_built, is_built-some, bishop_build, bishop_lookup-sliding,
}
use fat_fritz.Chess.Attacks.Sliders.{lookup_attacks-sliding}

tables_correct_example :
    (get_or rook_attacks 27 0 ≡ sliding_attacks rook_directions 27 0)
    × (get_or bishop_attacks 27 0 ≡ sliding_attacks bishop_directions 27 0)
    × (get_or knight_attacks 27 0 ≡ leaper_attacks knight_steps 27)
    × (get_or pawn_attacks 27 0 ≡ pawn_attackers 27)
tables_correct_example = tables_correct 27 (omega arith)

-- The table of the bishop on a1 alone.
abbrev first_magic : List ℕ
first_magic = 0x0008201802242020 ∷ []

abbrev first_build : Option (List MagicParams × Table)
first_build = build_attacks_table bishop_directions first_magic 0 0 (λ _. 0)

first_is_built : is_built first_build ≡ true
unfolding build_attacks_table build_square clear_entries fill_entries params_of occupancy_at
    magic_index occupancy_mask mask_walk_all mask_walk walk_all walk sliding_attacks iterate_bits
    iterate advance get_lowest_bit count_trailing_zeros BitBoard.set BitBoard.get BitBoard.set_if
    shl64 shr64
first_is_built = refl

first_build-some : first_build ≡ some (params_in first_build, table_in first_build)
first_build-some = is_built-some first_build first_is_built

lookup_attacks-sliding_example :
    lookup_attacks (params_in first_build) (table_in first_build) 0 0x40000
    ≡ sliding_attacks bishop_directions 0 0x40000
lookup_attacks-sliding_example =
    lookup_attacks-sliding bishop_directions first_magic (params_in first_build)
      (table_in first_build) 0 0x40000 bishop-NeverEmpty (omega arith) first_build-some
      (omega arith) (omega arith)

bishop_lookup-sliding_example :
    (bishop_build ≡ some (params_in bishop_build, table_in bishop_build))
    × (lookup_attacks (params_in bishop_build) (table_in bishop_build) 27 0x40000
        ≡ sliding_attacks bishop_directions 27 0x40000)
bishop_lookup-sliding_example = bishop_lookup-sliding 27 0x40000 (omega arith) (omega arith)
