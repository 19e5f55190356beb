-- ===== src/Chess/Board/Apply/Rules.antt =====
-- ApplyMove by the rules of chess: ordinary moves and castling.
use fat_fritz.Common.{
  ℕ, ◌<◌, true, false, ◌==◌, ◌≡◌, refl, ap, subst, sym, ◌∙◌, arith, Bool-cases, inl, inr, none,
  some,
}
use fat_fritz.Chess.Move.{Move, from}
use fat_fritz.Chess.Castlings
use fat_fritz.Chess.Board.{ChessBoard}
use fat_fritz.Chess.Board.Look.{look, kind_at, piece_at}
use fat_fritz.Chess.Board.Valid.{IsSettled, IsValid, IsPlain}
use fat_fritz.Chess.Board.Apply.{apply_move, castling_of, do_castling, is_en_passant}
use fat_fritz.Chess.Board.Apply.Castle.{
  CanCastle, piece_castled, do_castling-castles, do_castling-IsSettled,
}
use fat_fritz.Chess.Board.Apply.Settled.{apply_plain-IsSettled}
use fat_fritz.Chess.Board.Apply.Moved.{piece_after, kind_after, apply_plain-moves}

abbrev no_rights : ChessBoard → ChessBoard
no_rights b = record b {
  castlings = Castlings.reset_we_can_000 (Castlings.reset_we_can_00 b.castlings);
}

module _ (b : ChessBoard) (m : Move) where
  no_rights-IsValid : IsValid b → IsValid (no_rights b)
  unfolding look
  no_rights-IsValid v = record {
    words = record {
      ours_u64 = v.words.ours_u64;
      theirs_u64 = v.words.theirs_u64;
      rooks_u64 = v.words.rooks_u64;
      bishops_u64 = v.words.bishops_u64;
      pawns_u64 = v.words.pawns_u64;
    };
    our_king_small = v.our_king_small;
    their_king_small = v.their_king_small;
    our_king_ours = v.our_king_ours;
    their_king_theirs = v.their_king_theirs;
    squares = v.squares;
    their_flags = v.their_flags;
  }

  no_rights-IsPlain : IsPlain b m → IsPlain (no_rights b) m
  unfolding look
  no_rights-IsPlain p = record {
    from_small = p.from_small;
    to_small = p.to_small;
    ours_moves = p.ours_moves;
    to_free = p.to_free;
    no_king_taken = p.no_king_taken;
    pawn_up = p.pawn_up;
    pawn_stays = p.pawn_stays;
    pawn_promotes = p.pawn_promotes;
    pawn_double = p.pawn_double;
  }

  no_rights-piece_after : (s : ℕ) → piece_after (no_rights b) m s ≡ piece_after b m s
  unfolding piece_after kind_after piece_at kind_at look is_en_passant
  no_rights-piece_after s = refl

  -- On a valid board, a move of a piece of ours to a free or opposing square that is no castling
  -- (IsPlain, and castling_of finds none for our king) leaves on each of the 64 squares the piece
  -- that the rules give: the mover or what it is promoted to on the destination, nothing on its
  -- start and on the square of a pawn taken en passant, and elsewhere what was there.
  pub apply_move-moves :
      IsValid b
      → IsPlain b m
      → (b.our_king ≡ from m → castling_of b m ≡ none)
      → (s : ℕ) → s < 64
      → piece_at (apply_move b m).0 s ≡ piece_after b m s
  unfolding apply_move castling_of
  apply_move-moves v p plain s hs = elim (Bool-cases (from m == b.our_king)) [
    | inl k ↦
        rw (k, plain (ground (arith, k)))
          (apply_plain-moves (no_rights b) m (no_rights-IsValid v) (no_rights-IsPlain p) s hs
            ∙ no_rights-piece_after s)
    | inr nk ↦ rw (nk) (apply_plain-moves b m v p s hs)
  ]

  pub apply_move-IsSettled :
      IsValid b
      → IsPlain b m
      → (b.our_king ≡ from m → castling_of b m ≡ none)
      → IsSettled (apply_move b m).0
  unfolding apply_move castling_of
  apply_move-IsSettled v p plain = elim (Bool-cases (from m == b.our_king)) [
    | inl k ↦
        rw (k, plain (ground (arith, k)))
          (apply_plain-IsSettled (no_rights b) m (no_rights-IsValid v) (no_rights-IsPlain p))
    | inr nk ↦ rw (nk) (apply_plain-IsSettled b m v p)
  ]

  -- Castling: the king's move, its three squares, and what must stand on them.
  module _ (king_dst rook_src rook_dst : ℕ) (v : IsValid b) (is_king : b.our_king ≡ from m)
      (castling : castling_of b m ≡ some (king_dst, rook_src, rook_dst))
      (c : CanCastle b king_dst rook_src rook_dst) where
    no_rights-CanCastle : CanCastle (no_rights b) king_dst rook_src rook_dst
    unfolding piece_at kind_at look
    no_rights-CanCastle = record {
      king_dst_small = c.king_dst_small;
      rook_src_small = c.rook_src_small;
      rook_dst_small = c.rook_dst_small;
      dsts_apart = c.dsts_apart;
      rook_there = c.rook_there;
      king_dst_free = c.king_dst_free;
      rook_dst_free = c.rook_dst_free;
    }

    apply_move-castling :
        apply_move b m ≡ (do_castling (no_rights b) king_dst rook_src rook_dst, false)
    unfolding apply_move castling_of
    apply_move-castling =
        let is_from : (from m == b.our_king) ≡ true = ground (arith, is_king) in
        rw (is_from, castling) refl

    -- On a valid board, a move of our king that castling_of reads as castling, with our rook at
    -- its place and the two destinations free but for king and rook, puts the king and the rook
    -- on their destinations, empties their sources, changes no other square, and does not ask to
    -- reset the 50 moves counter.
    pub apply_move-castles :
        (s : ℕ)
        → s < 64
        → (piece_at (apply_move b m).0 s ≡ piece_castled b king_dst rook_src rook_dst s)
          × ((apply_move b m).1 ≡ false)
    unfolding piece_castled piece_at kind_at look
    apply_move-castles s hs = (
      ap (λ r. piece_at r.0 s) apply_move-castling
          ∙ do_castling-castles (no_rights b) king_dst rook_src rook_dst (no_rights-IsValid v)
              no_rights-CanCastle s hs,
      ap (λ r. r.1) apply_move-castling,
    )

    pub apply_move-castling-IsSettled : IsSettled (apply_move b m).0
    apply_move-castling-IsSettled =
        subst (λ r. IsSettled r.0) (sym apply_move-castling)
          (do_castling-IsSettled (no_rights b) king_dst rook_src rook_dst (no_rights-IsValid v)
            no_rights-CanCastle)
