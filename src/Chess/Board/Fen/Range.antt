-- ===== src/Chess/Board/Fen/Range.antt =====
-- The numbers of a board that was read from a FEN string fit their fields.
use fat_fritz.Common.{
  ℕ, ◌+◌, ◌-◌, ◌*◌, ◌/◌, ◌^◌, ◌<◌, bit_and, true, ◌||◌, ◌==◌, ltb, leb, List, [], ◌∷◌, Option, none,
  some, ◌≡◌, refl, arith, all_below, all_below_sound,
}
use fat_fritz.Common.Chars.{is_digit, is_upper}
use fat_fritz.Common.Result.{Result, err, OfOk, OfSome, OfOk-if, OfSome-if, OfOk-unless}
use fat_fritz.Bits.{shl64, IsU64, shl64-IsU64, bit_or-IsU64}
use fat_fritz.Chess.Square.{square_of}
use fat_fritz.Chess.BitBoard.{set}
use fat_fritz.Chess.Castlings
use fat_fritz.Chess.Castlings.{Castlings}
use fat_fritz.Chess.Board.{ChessBoard, mirror, rooks}
use fat_fritz.Chess.Board.Look.{Words}
use fat_fritz.Chess.Board.Mirror.{mirror_square, mirror-Words}
use fat_fritz.Chess.Board.Fen.{put_kind, put_piece, put_pieces}
use fat_fritz.Chess.Board.Fen.Reading.{FenError, bad_fen, too_many_columns}

-- The fields of Castlings: three bits for each rook's file, four for the rights.
pub record CastlingsFit (c : Castlings) : Type 0 where
  pub queenside_fits : c.queenside_rook < 8
  pub kingside_fits : c.kingside_rook < 8
  pub rights_fit : c.rights < 16

pub record IsInRange (b : ChessBoard) : Type 0 where
  pub words : Words b
  pub our_king_fits : b.our_king < 64
  pub their_king_fits : b.their_king < 64
  pub castlings_fit : CastlingsFit b.castlings

pub set-IsU64 : (b p : ℕ) → IsU64 b → IsU64 (set b p)
unfolding set
set-IsU64 b p h = bit_or-IsU64 b (shl64 1 p) h (shl64-IsU64 1 p)

rights_table : all_below 16 (λ r. ltb (bit_and r 0b11 * 2 ^ 2 + bit_and r 0b1100 / 2 ^ 2) 16) ≡ true
unfolding all_below
rights_table = refl

castlings_mirror_fit : (c : Castlings) → CastlingsFit c → CastlingsFit (Castlings.mirror c)
unfolding Castlings.mirror
castlings_mirror_fit c v = record {
  queenside_fits = v.queenside_fits;
  kingside_fits = v.kingside_fits;
  rights_fit = ground (arith, all_below_sound 16 _ c.rights rights_table v.rights_fit);
}

pub mirror-IsInRange : (b : ChessBoard) → IsInRange b → IsInRange (mirror b)
unfolding mirror
mirror-IsInRange b v = record {
  words = mirror-Words b v.words;
  our_king_fits = ground (arith, mirror_square b.their_king v.their_king_fits, v.their_king_fits);
  their_king_fits = ground (arith, mirror_square b.our_king v.our_king_fits, v.our_king_fits);
  castlings_fit = castlings_mirror_fit b.castlings v.castlings_fit;
}

-- Words of the same board with one of them replaced.
module _ (b : ChessBoard) (sq : ℕ) (v : IsInRange b) where
  marked_ours : IsInRange (record b { our_pieces = set b.our_pieces sq })
  marked_ours = record {
    words = record {
      ours_u64 = set-IsU64 b.our_pieces sq v.words.ours_u64;
      theirs_u64 = v.words.theirs_u64;
      rooks_u64 = v.words.rooks_u64;
      bishops_u64 = v.words.bishops_u64;
      pawns_u64 = v.words.pawns_u64;
    };
    our_king_fits = v.our_king_fits;
    their_king_fits = v.their_king_fits;
    castlings_fit = v.castlings_fit;
  }

  marked_theirs : IsInRange (record b { their_pieces = set b.their_pieces sq })
  marked_theirs = record {
    words = record {
      ours_u64 = v.words.ours_u64;
      theirs_u64 = set-IsU64 b.their_pieces sq v.words.theirs_u64;
      rooks_u64 = v.words.rooks_u64;
      bishops_u64 = v.words.bishops_u64;
      pawns_u64 = v.words.pawns_u64;
    };
    our_king_fits = v.our_king_fits;
    their_king_fits = v.their_king_fits;
    castlings_fit = v.castlings_fit;
  }

  -- The words of kinds and the kings replaced.
  pub replaced :
      (rooks bishops pawns ours theirs : ℕ)
      → IsU64 rooks
      → IsU64 bishops
      → IsU64 pawns
      → ours < 64
      → theirs < 64
      → IsInRange (record b {
        rooks_and_queens = rooks;
        bishops_and_queens = bishops;
        pawns_and_flags = pawns;
        our_king = ours;
        their_king = theirs;
      })
  replaced rooks bishops pawns ours theirs hr hb hp ho ht = record {
    words = record {
      ours_u64 = v.words.ours_u64;
      theirs_u64 = v.words.theirs_u64;
      rooks_u64 = hr;
      bishops_u64 = hb;
      pawns_u64 = hp;
    };
    our_king_fits = ho;
    their_king_fits = ht;
    castlings_fit = v.castlings_fit;
  }

put_kind-IsInRange :
    (b : ChessBoard) (sq c : ℕ) → sq < 64 → IsInRange b → OfSome IsInRange (put_kind b sq c)
unfolding put_kind
put_kind-IsInRange b sq c small v =
    let w = v.words in
    let rooks = set-IsU64 b.rooks_and_queens sq w.rooks_u64 in
    let bishops = set-IsU64 b.bishops_and_queens sq w.bishops_u64 in
    let pawns = set-IsU64 b.pawns_and_flags sq w.pawns_u64 in
    let into = replaced b sq v in
    let either = OfSome-if IsInRange in
    either (c == b'K') _ _
      (into _ _ _ _ _ w.rooks_u64 w.bishops_u64 w.pawns_u64 small v.their_king_fits)
      (either (c == b'k') _ _
        (into _ _ _ _ _ w.rooks_u64 w.bishops_u64 w.pawns_u64 v.our_king_fits small)
        (either (c == b'R' || c == b'r') _ _
          (into _ _ _ _ _ rooks w.bishops_u64 w.pawns_u64 v.our_king_fits v.their_king_fits)
          (either (c == b'B' || c == b'b') _ _
            (into _ _ _ _ _ w.rooks_u64 bishops w.pawns_u64 v.our_king_fits v.their_king_fits)
            (either (c == b'Q' || c == b'q') _ _
              (into _ _ _ _ _ rooks bishops w.pawns_u64 v.our_king_fits v.their_king_fits)
              (either (c == b'P' || c == b'p') _ _
                (into _ _ _ _ _ w.rooks_u64 w.bishops_u64 pawns v.our_king_fits v.their_king_fits)
                (either (c == b'N' || c == b'n') _ _ v tt))))))

put_piece-IsInRange :
    (b : ChessBoard) (sq c : ℕ) → sq < 64 → IsInRange b → OfSome IsInRange (put_piece b sq c)
unfolding put_piece
put_piece-IsInRange b sq c small v =
    OfSome-if IsInRange (is_upper c) _ _
      (put_kind-IsInRange (record b { our_pieces = set b.our_pieces sq }) sq c small
        (marked_ours b sq v))
      (put_kind-IsInRange (record b { their_pieces = set b.their_pieces sq }) sq c small
        (marked_theirs b sq v))

placed_on :
    (o : Option ChessBoard) (next : ChessBoard → Result FenError ChessBoard)
    → OfSome IsInRange o
    → ((b : ChessBoard) → IsInRange b → OfOk IsInRange (next b))
    → OfOk IsInRange (elim o [ none ↦ err bad_fen | some b ↦ next b ])
placed_on none next h k = tt
placed_on (some b) next h k = k b h

pub put_pieces-IsInRange :
    (xs : List ℕ) (r c : ℕ) (b : ChessBoard)
    → r < 8
    → IsInRange b
    → OfOk IsInRange (put_pieces xs r c b)
unfolding put_pieces
put_pieces-IsInRange [] r c b hr v = v
put_pieces-IsInRange (x ∷ xs) r c b hr v =
    OfOk-if IsInRange (x == b'/') _ _
      (OfOk-if IsInRange (r == 0) _ _ tt (put_pieces-IsInRange xs (r - 1) 0 b (omega arith) v))
      (OfOk-if IsInRange (is_digit x) _ _ (put_pieces-IsInRange xs r (c + (x - b'0')) b hr v) (
        OfOk-unless IsInRange (leb 8 c) too_many_columns _ (λ fits.
          placed_on (put_piece b (square_of r c) x) (put_pieces xs r (c + 1))
            (put_piece-IsInRange b (square_of r c) x (ground (arith, fits)) v)
            (λ b' v'. put_pieces-IsInRange xs r (c + 1) b' hr v'))))
