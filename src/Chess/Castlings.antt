-- ===== src/Chess/Castlings.antt =====
-- ChessBoard::Castlings of src/chess/board.h: the four castling rights and the rooks' files.
use fat_fritz.Common.{ℕ, ◌+◌, ◌-◌, ◌*◌, ◌/◌, ◌%◌, ◌^◌, bit_and, bit_or, Bool, not, ◌==◌}

-- Bit 0 of `rights` is our kingside right, bit 1 our queenside right, bits 2 and 3 are theirs.
pub record Castlings : Type 0 where
  pub queenside_rook : ℕ
  pub kingside_rook : ℕ
  pub rights : ℕ

-- Castlings().
abbrev pub initial : Castlings
initial = record { queenside_rook = 0; kingside_rook = 7; rights = 0 }

unfoldable pub set_we_can_00 : Castlings → Castlings
set_we_can_00 c = record c { rights = bit_or c.rights 1 }

unfoldable pub set_we_can_000 : Castlings → Castlings
set_we_can_000 c = record c { rights = bit_or c.rights 2 }

unfoldable pub set_they_can_00 : Castlings → Castlings
set_they_can_00 c = record c { rights = bit_or c.rights 4 }

unfoldable pub set_they_can_000 : Castlings → Castlings
set_they_can_000 c = record c { rights = bit_or c.rights 8 }

-- `data_ &= ~1`, on the 8 bits of `data_`.
unfoldable pub reset_we_can_00 : Castlings → Castlings
reset_we_can_00 c = record c { rights = bit_and c.rights (255 - 1) }

unfoldable pub reset_we_can_000 : Castlings → Castlings
reset_we_can_000 c = record c { rights = bit_and c.rights (255 - 2) }

unfoldable pub reset_they_can_00 : Castlings → Castlings
reset_they_can_00 c = record c { rights = bit_and c.rights (255 - 4) }

unfoldable pub reset_they_can_000 : Castlings → Castlings
reset_they_can_000 c = record c { rights = bit_and c.rights (255 - 8) }

unfoldable pub we_can_00 : Castlings → Bool
we_can_00 c = not (bit_and c.rights 1 == 0)

unfoldable pub we_can_000 : Castlings → Bool
we_can_000 c = not (bit_and c.rights 2 == 0)

unfoldable pub they_can_00 : Castlings → Bool
they_can_00 c = not (bit_and c.rights 4 == 0)

unfoldable pub they_can_000 : Castlings → Bool
they_can_000 c = not (bit_and c.rights 8 == 0)

unfoldable pub no_legal_castle : Castlings → Bool
no_legal_castle c = c.rights == 0

-- Mirror(): ours become theirs.
unfoldable pub mirror : Castlings → Castlings
mirror c = record c { rights = bit_and c.rights 0b11 * 2 ^ 2 + bit_and c.rights 0b1100 / 2 ^ 2 }

-- SetRookPositions(left, right), into fields of three bits.
unfoldable pub set_rook_positions : Castlings → ℕ → ℕ → Castlings
set_rook_positions c left right = record c { queenside_rook = left % 8; kingside_rook = right % 8 }
