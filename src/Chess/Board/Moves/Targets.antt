-- ===== src/Chess/Board/Moves/Targets.antt =====
-- The squares that the rules let a rook, bishop, queen or knight reach, and the moves to a set of
-- squares.
use fat_fritz.Common.{
  ℕ, ◌<◌, ◌^◌, Bool, true, false, ◌&&◌, ◌||◌, ◌≡◌, refl, ap, sym, subst, ◌∙◌, arith, List, [], ◌∷◌,
  map, Member, Member-map, Member-map_inv, not, get_or, all_below, all_below_sound, ltb,
}
use fat_fritz.Bits.{testbit, IsU64}
use fat_fritz.Utils.BitIter.{iterate_bits}
use fat_fritz.Utils.BitIter.Iterate.{Member-iterate_bits, Member-iterate_bits_inv}
use fat_fritz.Chess.BitBoard.{minus}
use fat_fritz.Chess.BitBoard.Laws.{testbit-minus, minus-IsU64}
use fat_fritz.Chess.Move.{Move, move, to, no_promotion}
use fat_fritz.Chess.Move.Fields.{promoting_fields}
use fat_fritz.Chess.Board.{ChessBoard, occupied}
use fat_fritz.Chess.Attacks.Tables.{knight_attacks, rook_directions, bishop_directions}
use fat_fritz.Common.Int.{pos}
use fat_fritz.Chess.Square.{BoardSquare, row, col}
use fat_fritz.Chess.Attacks.Tables.{Direction}
use fat_fritz.Chess.Attacks.Rays.{walk_all, sliding_attacks}
use fat_fritz.Chess.Attacks.Rays.Laws.{walk-IsU64}
use fat_fritz.Chess.Attacks.Rays.Empty.{leaper_attacks, knight_steps, tables_correct}
use fat_fritz.Chess.Board.Valid.{IsValid}
use fat_fritz.Chess.Board.Moves.{when}

-- Whether a piece that is neither king nor pawn goes from a square to another by the rules: along the
-- ranks and files for a rook or queen, along the diagonals for a bishop or queen, up to the first
-- piece in the way, and by a jump for a knight.
unfoldable pub reaches : ChessBoard → ℕ → ℕ → Bool
reaches b source d =
    let rook_like = testbit b.rooks_and_queens source in
    let bishop_like = testbit b.bishops_and_queens source in
    (rook_like && testbit (sliding_attacks rook_directions source (occupied b)) d)
    || (bishop_like && testbit (sliding_attacks bishop_directions source (occupied b)) d)
    || (not rook_like && not bishop_like && testbit (leaper_attacks knight_steps source) d)

-- The moves to the squares of a set that are not ours.
abbrev pub target_moves : ChessBoard → ℕ → ℕ → List Move
target_moves b source targets = map (move source) (iterate_bits (minus targets b.our_pieces))

-- What is known of such a move.
abbrev IsTarget : ChessBoard → ℕ → ℕ → Move → Type 0
IsTarget b source targets m =
    (m ≡ move source (to m))
    × (to m < 64)
    × (testbit targets (to m) ≡ true)
    × (testbit b.our_pieces (to m) ≡ false)

module _ (b : ChessBoard) (v : IsValid b) (source : ℕ) (hs : source < 64) (targets : ℕ)
    (u : IsU64 targets) where
  pub target_moves-IsTarget :
      (m : Move) → Member m (target_moves b source targets) → IsTarget b source targets m
  target_moves-IsTarget m h =
      let (d, hd, e) =
        Member-map_inv (move source) m (iterate_bits (minus targets b.our_pieces)) h in
      let bit =
        Member-iterate_bits_inv (minus targets b.our_pieces) d (minus-IsU64 targets b.our_pieces u)
          hd in
      let rule = testbit-minus targets b.our_pieces d v.words.ours_u64 bit.0 in
      let fields = promoting_fields source d no_promotion hs bit.0 in
      let t : d ≡ to m = sym (ap to e ∙ ap to (sym fields.3) ∙ fields.1) in
      (
        e ∙ ap (move source) t,
        subst (λ x. x < 64) t bit.0,
        subst (λ x. testbit targets x ≡ true) t (ground (arith, bit, rule)),
        subst (λ x. testbit b.our_pieces x ≡ false) t (ground (arith, bit, rule)),
      )

  pub Member-target_moves :
      (d : ℕ)
      → d < 64
      → testbit targets d ≡ true
      → testbit b.our_pieces d ≡ false
      → Member (move source d) (target_moves b source targets)
  Member-target_moves d h on free =
      Member-map (move source) d (iterate_bits (minus targets b.our_pieces)) (
        Member-iterate_bits (minus targets b.our_pieces) d (minus-IsU64 targets b.our_pieces u) h
          (testbit-minus targets b.our_pieces d v.words.ours_u64 h ∙ ground (arith, on, free)))

knight_table_small : all_below 64 (λ sq. ltb (get_or knight_attacks sq 0) (2 ^ 64)) ≡ true
unfolding all_below
knight_table_small = refl

walk_all-IsU64 :
    (sq : BoardSquare) (ds : List Direction) (o a : ℕ) → IsU64 a → IsU64 (walk_all sq ds o a)
unfolding walk_all
walk_all-IsU64 sq [] o a h = h
walk_all-IsU64 sq (d ∷ ds) o a h =
    walk_all-IsU64 sq ds o _ (walk-IsU64 8 (pos (row sq)) (pos (col sq)) d o a h)

pub sliding_attacks-IsU64 :
    (ds : List Direction) (sq : BoardSquare) (o : ℕ) → IsU64 (sliding_attacks ds sq o)
unfolding sliding_attacks
sliding_attacks-IsU64 ds sq o = walk_all-IsU64 sq ds o 0 (omega arith)

pub Member-when :
    (cond : Bool) (m : Move) (ms : List Move)
    → Member m (when cond ms)
    → (cond ≡ true) × Member m ms
Member-when true m ms h = (refl, h)
Member-when false m ms h = absurd h

pub when-Member :
    (cond : Bool) (m : Move) (ms : List Move) → cond ≡ true → Member m ms → Member m (when cond ms)
when-Member true m ms on h = h
when-Member false m ms on h = absurd (ground (arith, on))

pub knights-IsU64 : (source : ℕ) → source < 64 → IsU64 (leaper_attacks knight_steps source)
knights-IsU64 source hs =
    subst IsU64 (tables_correct source hs).2
      (ground (arith, all_below_sound 64 _ source knight_table_small hs))
