-- ===== src/Chess/Attacks/Sliders.antt =====
-- What the board asks of GetRookAttacks and GetBishopAttacks, and who provides it.
use fat_fritz.Common.{ℕ, ◌<◌, ◌+◌, ◌≤◌, ◌≡◌, refl, ap, ◌∙◌, arith, Option, none, some, List, length}
use mathlib.Core.Option.{some-injective}
use fat_fritz.Bits.{IsU64}
use fat_fritz.Chess.BitBoard.{BitBoard}
use fat_fritz.Chess.Square.{BoardSquare}
use fat_fritz.Chess.Attacks.Tables.{Direction, rook_directions, bishop_directions}
use fat_fritz.Chess.Attacks.MagicNumbers.{rook_magic_numbers, bishop_magic_numbers}
use fat_fritz.Chess.Attacks.Rays.{sliding_attacks}
use fat_fritz.Chess.Attacks.Rays.Reach.{NeverEmpty, rook-NeverEmpty, bishop-NeverEmpty}
use fat_fritz.Chess.Attacks.Magic.{
  MagicParams, Magics, Table, build_attacks_table, lookup_attacks, get_rook_attacks,
  get_bishop_attacks, both_tables, initialize_magic_bitboards,
}
use fat_fritz.Chess.Attacks.Magic.Lookup.{build_attacks_table-Built}

pub record Sliders : Type 0 where
  pub rook_attacks_from : BoardSquare → BitBoard → BitBoard
  pub bishop_attacks_from : BoardSquare → BitBoard → BitBoard
  pub rook_rays :
      (sq : BoardSquare) (pieces : BitBoard)
      → sq < 64
      → IsU64 pieces
      → rook_attacks_from sq pieces ≡ sliding_attacks rook_directions sq pieces
  pub bishop_rays :
      (sq : BoardSquare) (pieces : BitBoard)
      → sq < 64
      → IsU64 pieces
      → bishop_attacks_from sq pieces ≡ sliding_attacks bishop_directions sq pieces

-- Walking the rays each time.
abbrev pub walking : Sliders
walking = record {
  rook_attacks_from = sliding_attacks rook_directions;
  bishop_attacks_from = sliding_attacks bishop_directions;
  rook_rays = λ sq pieces h k. refl;
  bishop_rays = λ sq pieces h k. refl;
}

-- A table that BuildAttacksTable filled without throwing, for at most 64 squares and directions
-- whose rays are nowhere all empty, gives at each lookup the squares that a slider attacks: those
-- of every ray up to the first piece, which is included.
pub lookup_attacks-sliding :
    (ds : List Direction) (magics : List ℕ) (ps : List MagicParams) (t : Table) (sq : BoardSquare)
    (pieces : BitBoard)
    → NeverEmpty ds
    → length magics ≤ 64
    → build_attacks_table ds magics 0 0 (λ _. 0) ≡ some (ps, t)
    → sq < length magics
    → IsU64 pieces
    → lookup_attacks ps t sq pieces ≡ sliding_attacks ds sq pieces
unfolding lookup_attacks
lookup_attacks-sliding ds magics ps t sq pieces never small h hs hp =
    (build_attacks_table-Built ds magics 0 0 (λ _. 0) ps t never (omega arith) h).0 sq hs pieces hp
    ∙ ap (λ s. sliding_attacks ds s pieces) {x = 0 + sq} {y = sq} (omega arith)

both_tables_inv :
    (x y : Option (List MagicParams × Table)) (m : Magics)
    → both_tables x y ≡ some m
    → (x ≡ some (m.rook_magic_params, m.rook_attacks_table))
      × (y ≡ some (m.bishop_magic_params, m.bishop_attacks_table))
unfolding both_tables
both_tables_inv (some (a, b)) (some (c, d)) m h =
    let e = some-injective _ _ h in
    (
      ap (λ (x : Magics). some (x.rook_magic_params, x.rook_attacks_table)) e,
      ap (λ (x : Magics). some (x.bishop_magic_params, x.bishop_attacks_table)) e,
    )
both_tables_inv (some (a, b)) none m h = absurd (cc)
both_tables_inv none (some (c, d)) m h = absurd (cc)
both_tables_inv none none m h = absurd (cc)

-- InitializeMagicBitboards ran to its end for rooks and bishops alike.
initialized :
    (m : Magics)
    → initialize_magic_bitboards ≡ some m
    → (build_attacks_table rook_directions rook_magic_numbers 0 0 (λ _. 0)
        ≡ some (m.rook_magic_params, m.rook_attacks_table))
      × (build_attacks_table bishop_directions bishop_magic_numbers 0 0 (λ _. 0)
          ≡ some (m.bishop_magic_params, m.bishop_attacks_table))
unfolding initialize_magic_bitboards
initialized m h = both_tables_inv _ _ m h

-- The magic bitboards provide it, if no magic number is invalid.
pub of_magics : (m : Magics) → initialize_magic_bitboards ≡ some m → Sliders
unfolding get_rook_attacks get_bishop_attacks
of_magics m h = record {
  rook_attacks_from = get_rook_attacks m;
  bishop_attacks_from = get_bishop_attacks m;
  rook_rays = λ sq pieces hs hp.
      lookup_attacks-sliding rook_directions rook_magic_numbers m.rook_magic_params
        m.rook_attacks_table sq pieces rook-NeverEmpty (omega arith) (initialized m h).0 hs hp;
  bishop_rays = λ sq pieces hs hp.
      lookup_attacks-sliding bishop_directions bishop_magic_numbers m.bishop_magic_params
        m.bishop_attacks_table sq pieces bishop-NeverEmpty (omega arith) (initialized m h).1 hs hp;
}
