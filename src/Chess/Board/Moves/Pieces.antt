-- ===== src/Chess/Board/Moves/Pieces.antt =====
-- The generated moves of rooks, bishops, queens and knights, against the squares that the rules let
-- them reach.
use fat_fritz.Common.{
  ℕ, ◌<◌, true, false, ◌&&◌, ◌||◌, ◌==◌, ◌≡◌, ◌≢◌, refl, ap, sym, subst, ◌∙◌, arith, Bool-cases,
  inl, inr, ◌++◌, Member, Member-append, Member-append_left, Member-append_right,
}
use fat_fritz.Bits.{testbit, IsU64, testbit-bit_and, bit_and-IsU64, bit_or-IsU64}
use fat_fritz.Chess.BitBoard.{get}
use fat_fritz.Chess.BitBoard.Laws.{get-eq-testbit}
use fat_fritz.Chess.Move.{Move, move, from, to, promotion, no_promotion}
use fat_fritz.Chess.Move.Fields.{promoting_fields}
use fat_fritz.Chess.Board.{ChessBoard, pawns, pawn_mask, occupied}
use fat_fritz.Chess.Attacks.Tables.{rook_directions, bishop_directions}
use fat_fritz.Chess.Attacks.Rays.{sliding_attacks}
use fat_fritz.Chess.Attacks.Rays.Empty.{leaper_attacks, knight_steps, tables_correct}
use fat_fritz.Chess.Board.Look.{testbit-pawn_mask, look, inner}
use fat_fritz.Chess.Board.Valid.{IsValid, IsPlain}
use fat_fritz.Chess.Attacks.Sliders.{Sliders}
use fat_fritz.Chess.Board.Moves.{slider_moves_from, knight_moves_from, moves_from, when}
use fat_fritz.Chess.Board.Moves.Targets.{
  reaches, target_moves, target_moves-IsTarget, Member-target_moves, sliding_attacks-IsU64,
  Member-when, when-Member, knights-IsU64,
}

module _ (b : ChessBoard) (v : IsValid b) (source : ℕ) (hs : source < 64)
    (ours : (look b source).ours ≡ true)
    (no_pawn : ((look b source).pawn_like && inner source) ≡ false) where
  -- Any move of a piece that is no pawn to a square that is not ours and without their king.
  piece_move-IsPlain :
      (d : ℕ) → d < 64 → (look b d).ours ≡ false → b.their_king ≢ d → IsPlain b (move source d)
  piece_move-IsPlain d hd free no_king =
      let fields = promoting_fields source d no_promotion hs hd in
      let f : from (move source d) ≡ source = ap from (sym fields.3) ∙ fields.0 in
      let t : to (move source d) ≡ d = ap to (sym fields.3) ∙ fields.1 in
      let p : promotion (move source d) ≡ no_promotion = ap promotion (sym fields.3) ∙ fields.2 in
      let still : ((look b (from (move source d))).pawn_like && inner (from (move source d)))
          ≡ false =
        subst (λ x. ((look b x).pawn_like && inner x) ≡ false) (sym f) no_pawn in
      record {
        from_small = omega (arith, f);
        to_small = omega (arith, t);
        ours_moves = subst (λ x. (look b x).ours ≡ true) (sym f) ours;
        to_free = subst (λ x. (look b x).ours ≡ false) (sym t) free;
        no_king_taken = λ e. no_king (e ∙ t);
        pawn_up = λ h. ground (arith, still, h);
        pawn_stays = λ e h. ground (arith, still, h);
        pawn_promotes = λ e. absurd (e p);
        pawn_double = λ h e. ground (arith, still, h);
      }

module _ (s : Sliders) (b : ChessBoard) (v : IsValid b) (source : ℕ) (hs : source < 64)
    (ours : (look b source).ours ≡ true)
    (no_pawn : ((look b source).pawn_like && inner source) ≡ false) where
  slides : get b.rooks_and_queens source ≡ testbit b.rooks_and_queens source
  slides = get-eq-testbit b.rooks_and_queens source v.words.rooks_u64 hs

  slants : get b.bishops_and_queens source ≡ testbit b.bishops_and_queens source
  slants = get-eq-testbit b.bishops_and_queens source v.words.bishops_u64 hs

  occupied-IsU64 : IsU64 (occupied b)
  occupied-IsU64 = bit_or-IsU64 b.our_pieces b.their_pieces v.words.ours_u64 v.words.theirs_u64

  pawn_absent : get (pawns b) source ≡ false
  unfolding look
  pawn_absent = ground (
    arith,
    get-eq-testbit (pawns b) source (bit_and-IsU64 b.pawns_and_flags pawn_mask v.words.pawns_u64)
        hs,
    testbit-bit_and source b.pawns_and_flags pawn_mask,
    testbit-pawn_mask source hs,
    no_pawn,
  )

  -- The moves of a slider, with the rays in place of what gives its attacks.
  slider_moves-rays :
      slider_moves_from s b source
      ≡ when
          (testbit b.rooks_and_queens source)
          (target_moves b source (sliding_attacks rook_directions source (occupied b)))
        ++ when
            (testbit b.bishops_and_queens source)
            (target_moves b source (sliding_attacks bishop_directions source (occupied b)))
  unfolding slider_moves_from
  slider_moves-rays =
      rw
        (
          slides,
          slants,
          s.rook_rays source (occupied b) hs occupied-IsU64,
          s.bishop_rays source (occupied b) hs occupied-IsU64,
        )
        refl

  knight_moves-jumps :
      knight_moves_from s b source ≡ target_moves b source (leaper_attacks knight_steps source)
  unfolding knight_moves_from
  knight_moves-jumps = ap (target_moves b source) (tables_correct source hs).2

  -- The moves are those to the squares that the piece reaches, ours left out.
  moves_from-IsTarget :
      (m : Move)
      → b.our_king ≢ source
      → Member m (moves_from s b source)
      → (m ≡ move source (to m))
        × (to m < 64)
        × (reaches b source (to m) ≡ true)
        × (testbit b.our_pieces (to m) ≡ false)
  unfolding moves_from reaches
  moves_from-IsTarget m nk h =
      let not_king : (source == b.our_king) ≡ false = ground (arith, nk) in
      let files = sliding_attacks rook_directions source (occupied b) in
      let diagonals = sliding_attacks bishop_directions source (occupied b) in
      let jumps = leaper_attacks knight_steps source in
      let on_files = testbit b.rooks_and_queens source in
      let on_diagonals = testbit b.bishops_and_queens source in
      elim (Bool-cases (testbit b.rooks_and_queens source || testbit b.bishops_and_queens source)) [
        | inl on ↦
            let h' = rw (not_king, slides, slants, on, slider_moves-rays) at h in
            elim (Member-append m (when on_files (target_moves b source files))
              (when on_diagonals (target_moves b source diagonals)) h') [
                | inl r ↦
                    let (here, k) = Member-when on_files m (target_moves b source files) r in
                    ground (
                      arith,
                      here,
                      target_moves-IsTarget b v source hs files
                          (sliding_attacks-IsU64 rook_directions source (occupied b)) m k,
                    )
                | inr r ↦
                    let (here, k) =
                      Member-when on_diagonals m (target_moves b source diagonals) r in
                    ground (
                      arith,
                      here,
                      target_moves-IsTarget b v source hs diagonals
                          (sliding_attacks-IsU64 bishop_directions source (occupied b)) m k,
                    )
              ]
        | inr off ↦
            let h' = rw (not_king, slides, slants, off, pawn_absent, knight_moves-jumps) at h in
            ground
              (arith, off, target_moves-IsTarget b v source hs jumps (knights-IsU64 source hs) m h')
      ]

  -- What is generated for a piece of ours that is neither king nor pawn, on a valid board, and
  -- does not go to the square of their king, is an ordinary move by the rules, starts at the
  -- square of the piece, and goes to one that it reaches: along ranks and files for a rook or
  -- queen, along diagonals for a bishop or queen, up to the first piece in the way, by a jump for
  -- a knight.
  pub moves_from-IsPlain :
      (m : Move)
      → b.our_king ≢ source
      → b.their_king ≢ to m
      → Member m (moves_from s b source)
      → IsPlain b m × (m ≡ move source (to m)) × (reaches b source (to m) ≡ true)
  unfolding look
  moves_from-IsPlain m nk no_king h =
      let (same, small, reached, free) = moves_from-IsTarget m nk h in
      (
        subst (IsPlain b) (sym same)
            (piece_move-IsPlain b v source hs ours no_pawn (to m) small free no_king),
        same,
        reached,
      )

  -- For a piece of ours that is neither king nor pawn, on a valid board, the move to any square
  -- that the piece reaches, and that does not hold a piece of ours, is generated.
  pub Member-moves_from :
      (d : ℕ)
      → b.our_king ≢ source
      → d < 64
      → reaches b source d ≡ true
      → (look b d).ours ≡ false
      → Member (move source d) (moves_from s b source)
  unfolding moves_from reaches look
  Member-moves_from d nk h reached free =
      let not_king : (source == b.our_king) ≡ false = ground (arith, nk) in
      let files = sliding_attacks rook_directions source (occupied b) in
      let diagonals = sliding_attacks bishop_directions source (occupied b) in
      let jumps = leaper_attacks knight_steps source in
      let on_files = testbit b.rooks_and_queens source in
      let on_diagonals = testbit b.bishops_and_queens source in
      let along_files = target_moves b source files in
      let along_diagonals = target_moves b source diagonals in
      let target = Member-target_moves b v source hs in
      elim (Bool-cases (testbit b.rooks_and_queens source || testbit b.bishops_and_queens source)) [
        | inl on ↦
            rw (not_king, slides, slants, on, slider_moves-rays)
              (elim (Bool-cases (on_files && testbit files d)) [
                | inl goes ↦
                    Member-append_left (move source d) (when on_files along_files)
                      (when on_diagonals along_diagonals)
                      (when-Member on_files (move source d) along_files (ground (arith, goes)) (
                        target files (sliding_attacks-IsU64 rook_directions source (occupied b)) d h
                          (ground (arith, goes)) free))
                | inr else_on ↦
                    Member-append_right (move source d) (when on_files along_files)
                      (when on_diagonals along_diagonals)
                      (when-Member on_diagonals (move source d) along_diagonals
                        (ground (arith, reached, else_on, on))
                        (target diagonals
                          (sliding_attacks-IsU64 bishop_directions source (occupied b)) d h
                          (ground (arith, reached, else_on, on)) free))
              ])
        | inr off ↦
            rw (not_king, slides, slants, off, pawn_absent, knight_moves-jumps)
              (target jumps (knights-IsU64 source hs) d h (ground (arith, off, reached)) free)
      ]
