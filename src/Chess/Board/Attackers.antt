-- ===== src/Chess/Board/Attackers.antt =====
-- IsUnderAttack against the pieces that attack a square by the rules.
use fat_fritz.Common.{
  ℕ, zero, suc, ◌<◌, ◌^◌, ltb, Bool, true, false, not, ◌&&◌, ◌||◌, ◌==◌, leb, if◌then◌else◌, List,
  [], ◌∷◌, ◌≡◌, refl, ap, ◌∙◌, arith, all_below, all_below_sound, Bool-cases, inl, inr, bit_and,
}
use fat_fritz.Common.Int.{pos, negsuc, abs, ◌-ℤ◌}
use fat_fritz.Bits.{testbit, testbit-bit_and, bit_or-IsU64, bit_and-IsU64}
use fat_fritz.Chess.Square.{row, col}
use fat_fritz.Chess.BitBoard.{intersects, minus, without}
use fat_fritz.Chess.BitBoard
use fat_fritz.Bits.{shl64}
use fat_fritz.Chess.BitBoard.Laws.{
  intersects-false, intersects_none, testbit-minus, testbit-without,
}
use fat_fritz.Chess.Attacks.Tables.{Direction, rook_directions, bishop_directions}
use fat_fritz.Chess.Attacks.Rays.{sliding_attacks}
use fat_fritz.Chess.Attacks.Rays.Empty.{
  leaper_attacks, knight_steps, pawn_attackers, tables_correct,
}
use fat_fritz.Chess.Attacks.Sliders.{Sliders}
use fat_fritz.Chess.Board.{ChessBoard, occupied, pawns, pawn_mask}
use fat_fritz.Chess.Board.Look.{inner, testbit-pawn_mask}
use fat_fritz.Chess.Board.Valid.{IsValid}
use fat_fritz.Chess.Board.Moves.Targets.{sliding_attacks-IsU64, knights-IsU64}
use fat_fritz.Chess.Board.Attacked.{beside_their_king, their_knights, is_under_attack}

abbrev king_steps : List Direction
king_steps =
    (pos 1, pos 1)
    ∷ (pos 1, pos 0)
    ∷ (pos 1, negsuc 0)
    ∷ (pos 0, pos 1)
    ∷ (pos 0, negsuc 0)
    ∷ (negsuc 0, pos 1)
    ∷ (negsuc 0, pos 0)
    ∷ (negsuc 0, negsuc 0)
    ∷ []

-- Their piece on the square `t` attacks the square `sq` by the rules: the king a square beside it,
-- and its own; a rook or queen along ranks and files and a bishop or queen along diagonals, with no
-- piece between; a pawn diagonally forward; a knight by a jump.
unfoldable pub attacks : ChessBoard → ℕ → ℕ → Bool
attacks b t sq =
    let rook_like = testbit b.rooks_and_queens t in
    let bishop_like = testbit b.bishops_and_queens t in
    let pawn_like = testbit b.pawns_and_flags t in
    let on_king = b.their_king == t in
    (on_king && (t == sq || testbit (leaper_attacks king_steps sq) t))
    || (testbit b.their_pieces t
        && ((rook_like && testbit (sliding_attacks rook_directions sq (occupied b)) t)
            || (bishop_like && testbit (sliding_attacks bishop_directions sq (occupied b)) t)
            || (pawn_like && inner t && testbit (pawn_attackers sq) t)
            || (not on_king
                && not rook_like
                && not bishop_like
                && not (pawn_like && inner t)
                && testbit (leaper_attacks knight_steps sq) t)))

abbrev near : ℕ → ℕ → Bool
near k sq = leb (abs (pos (row k) -ℤ pos (row sq))) 1 && leb (abs (pos (col k) -ℤ pos (col sq))) 1

near_table :
    all_below 64 (λ sq. all_below 64 (λ k.
      let rule = k == sq || testbit (leaper_attacks king_steps sq) k in
      if near k sq then rule else not rule))
    ≡ true
unfolding all_below leaper_attacks BitBoard.set shl64 testbit
near_table = refl

beside-near :
    (b : ChessBoard) (sq : ℕ)
    → b.their_king < 64
    → sq < 64
    → beside_their_king b sq
      ≡ (b.their_king == sq || testbit (leaper_attacks king_steps sq) b.their_king)
unfolding beside_their_king
beside-near b sq hk hs =
    ground (arith, all_below_sound 64 _ b.their_king (all_below_sound 64 _ sq near_table hs) hk)

-- No pawn attacks from the first or the last row.
pawn_rows :
    all_below 64 (λ sq.
      ltb (pawn_attackers sq) (2 ^ 64)
      && all_below 64 (λ t. inner t || not (testbit (pawn_attackers sq) t)))
    ≡ true
unfolding all_below pawn_attackers leaper_attacks BitBoard.set shl64 testbit
pawn_rows = refl

none_below :
    (n : ℕ) (p : ℕ → Bool) → ((t : ℕ) → t < n → p t ≡ false) → all_below n (λ t. not (p t)) ≡ true
unfolding all_below
none_below zero p h = refl
none_below (suc n) p h =
    let earlier = none_below n p (λ t k. h t (omega (arith, k))) in
    ground (arith, h n (omega arith), earlier)

module _ (b : ChessBoard) (v : IsValid b) (t : ℕ) (ht : t < 64) where
  testbit-their_knights : testbit (their_knights b) t ≡ (
      testbit b.their_pieces t
      && not (b.their_king == t)
      && not (testbit b.rooks_and_queens t)
      && not (testbit b.bishops_and_queens t)
      && not (testbit b.pawns_and_flags t && inner t))
  testbit-their_knights =
      let others = without b.their_pieces b.their_king in
      let no_rooks = minus others b.rooks_and_queens in
      let no_bishops = minus no_rooks b.bishops_and_queens in
      ground (
        arith,
        testbit-minus no_bishops (pawns b) t
            (bit_and-IsU64 b.pawns_and_flags pawn_mask v.words.pawns_u64) ht,
        testbit-minus no_rooks b.bishops_and_queens t v.words.bishops_u64 ht,
        testbit-minus others b.rooks_and_queens t v.words.rooks_u64 ht,
        testbit-without b.their_pieces b.their_king t v.their_king_small ht,
        testbit-bit_and t b.pawns_and_flags pawn_mask,
        testbit-pawn_mask t ht,
      )

module _ (s : Sliders) (b : ChessBoard) (v : IsValid b) (sq : ℕ) (hs : sq < 64) where
  abbrev files : ℕ
  files = sliding_attacks rook_directions sq (occupied b)

  abbrev diagonals : ℕ
  diagonals = sliding_attacks bishop_directions sq (occupied b)

  abbrev jumps : ℕ
  jumps = leaper_attacks knight_steps sq

  -- The five tests of IsUnderAttack, with the rules in place of tables and sliders.
  tests : Bool
  tests =
      (b.their_king == sq || testbit (leaper_attacks king_steps sq) b.their_king)
      || intersects files (bit_and b.their_pieces b.rooks_and_queens)
      || intersects diagonals (bit_and b.their_pieces b.bishops_and_queens)
      || intersects (pawn_attackers sq) (bit_and b.their_pieces b.pawns_and_flags)
      || intersects jumps (their_knights b)

  is_under_attack-tests : is_under_attack s b sq ≡ tests
  unfolding is_under_attack tests
  is_under_attack-tests =
      let u = bit_or-IsU64 b.our_pieces b.their_pieces v.words.ours_u64 v.words.theirs_u64 in
      let tables = tables_correct sq hs in
      rw
        (
          beside-near b sq v.their_king_small hs,
          s.rook_rays sq (occupied b) hs u,
          s.bishop_rays sq (occupied b) hs u,
          tables.2,
          tables.3,
        )
        (ground arith)

  -- Without an attack no piece of theirs attacks the square.
  no_attackers : tests ≡ false → (t : ℕ) → t < 64 → attacks b t sq ≡ false
  unfolding tests attacks
  no_attackers off t ht =
      let king : b.their_king ≡ t
          → testbit (leaper_attacks king_steps sq) b.their_king
            ≡ testbit (leaper_attacks king_steps sq) t =
        λ e. ap (testbit (leaper_attacks king_steps sq)) e in
      ground (
        arith,
        off,
        king,
        intersects-false files (bit_and b.their_pieces b.rooks_and_queens) t,
        intersects-false diagonals (bit_and b.their_pieces b.bishops_and_queens) t,
        intersects-false (pawn_attackers sq) (bit_and b.their_pieces b.pawns_and_flags) t,
        intersects-false jumps (their_knights b) t,
        testbit-bit_and t b.their_pieces b.rooks_and_queens,
        testbit-bit_and t b.their_pieces b.bishops_and_queens,
        testbit-bit_and t b.their_pieces b.pawns_and_flags,
        testbit-their_knights b v t ht,
      )

  -- Where no piece of theirs attacks the square, there is no attack.
  no_attack : ((t : ℕ) → t < 64 → attacks b t sq ≡ false) → tests ≡ false
  unfolding tests attacks
  no_attack h =
      let pawns_in = all_below_sound 64 _ sq pawn_rows hs in
      let king = h b.their_king v.their_king_small in
      let by_files =
        intersects_none files (bit_and b.their_pieces b.rooks_and_queens)
          (sliding_attacks-IsU64 rook_directions sq (occupied b))
          (λ t ht. ground (arith, h t ht, testbit-bit_and t b.their_pieces b.rooks_and_queens)) in
      let by_diagonals =
        intersects_none diagonals (bit_and b.their_pieces b.bishops_and_queens)
          (sliding_attacks-IsU64 bishop_directions sq (occupied b))
          (λ t ht. ground (arith, h t ht, testbit-bit_and t b.their_pieces b.bishops_and_queens)) in
      let by_pawns =
        intersects_none (pawn_attackers sq) (bit_and b.their_pieces b.pawns_and_flags)
          (ground (arith, pawns_in))
          (λ t ht. ground (
            arith,
            h t ht,
            testbit-bit_and t b.their_pieces b.pawns_and_flags,
            all_below_sound 64 (λ t. inner t || not (testbit (pawn_attackers sq) t)) t
                (ground (arith, pawns_in)) ht,
          )) in
      let by_jumps =
        intersects_none jumps (their_knights b) (knights-IsU64 sq hs)
          (λ t ht. ground (arith, h t ht, testbit-their_knights b v t ht)) in
      ground (arith, king, by_files, by_diagonals, by_pawns, by_jumps)

  -- On a valid board IsUnderAttack is true of a square of the board exactly if one of the 64
  -- squares holds a piece of theirs that attacks it by the rules: a king that is beside it or on
  -- it, a rook or queen along ranks and files or a bishop or queen along diagonals with no piece
  -- between, a pawn diagonally forward, or a knight by a jump.
  pub is_under_attack-attacks :
      is_under_attack s b sq ≡ not (all_below 64 (λ t. not (attacks b t sq)))
  is_under_attack-attacks = is_under_attack-tests ∙ elim (Bool-cases tests) [
    | inl on ↦ elim (Bool-cases (all_below 64 (λ t. not (attacks b t sq)))) [
      | inl all ↦ absurd (
          ground (
            arith,
            on,
            no_attack
                (λ t ht. ground (arith, all_below_sound 64 (λ t. not (attacks b t sq)) t all ht)),
          ))
      | inr some_attack ↦ ground (arith, on, some_attack)
    ]
    | inr off ↦ ground (arith, off, none_below 64 (λ t. attacks b t sq) (no_attackers off))
  ]
