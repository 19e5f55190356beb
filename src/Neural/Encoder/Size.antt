-- ===== src/Neural/Encoder/Size.antt =====
-- The number of planes of EncodePositionForNN, and the formats that it refuses.
use mathlib.Core.Option.{some-injective, none-ne-some}
use fat_fritz.Common.{
  ℕ, zero, suc, ◌+◌, ◌*◌, ◌≤◌, min, not, ◌&&◌, Bool, true, false, ◌||◌, ◌==◌, if◌then◌else◌, List,
  [], ◌∷◌, ◌++◌, Option, none, some, length, length-append, ◌≡◌, refl, ap, ap₂, ◌∙◌, arith,
}
use fat_fritz.Common.Bools.{is_some}
use fat_fritz.Chess.Castlings.{Castlings}
use fat_fritz.Chess.Board.{ChessBoard}
use fat_fritz.Chess.Position.{Position}
use fat_fritz.Neural.Encoder.{
  InputFormats, InputPlane, FillEmptyHistory, is_canonical, transform_for_position, history_boards,
  board_planes, breaks_before, padded, transform_first, castling_planes, aux_planes, on_some,
  encoded, encode_position,
}

pub length-padded : (n : ℕ) (ps : List InputPlane) → length ps ≤ n → length (padded n ps) ≡ n
unfolding padded
length-padded zero [] h = refl
length-padded zero (p ∷ ps) h = absurd (omega (arith, h))
length-padded (suc n) [] h = ap suc (length-padded n [] (omega arith))
length-padded (suc n) (p ∷ ps) h = ap suc (length-padded n ps (omega (arith, h)))

length-one_board :
    (breaks stops : Bool) (xs rest : List InputPlane) (count : ℕ)
    → length xs ≡ 13
    → length rest ≤ 13 * count
    → length (if breaks then [] else xs ++ (if stops then [] else rest)) ≤ 13 * suc count
length-one_board true stops xs rest count h k = omega arith
length-one_board false true xs rest count h k = omega (arith, length-append xs [], h)
length-one_board false false xs rest count h k = omega (arith, length-append xs rest, h, k)

length-board_planes : (b : ChessBoard) (n : ℕ) (undo : Bool) → length (board_planes b n undo) ≡ 13
unfolding board_planes
length-board_planes b n undo = refl

-- The loop over the history writes 13 planes a round at most.
pub length-history_boards :
    (fill : FillEmptyHistory) (stop_early : Bool) (rights count : ℕ) (p : Position)
    (earlier : List Position) (flip first beyond : Bool)
    → length (history_boards fill stop_early rights count p earlier flip first beyond) ≤ 13 * count
unfolding history_boards
length-history_boards fill stop_early rights zero p earlier flip first beyond = omega arith
length-history_boards fill stop_early rights (suc count) p [] flip first beyond =
    let b = if flip then p.them_board else p.us_board in
    length-one_board (breaks_before fill stop_early rights p b first beyond)
      (stop_early && p.rule50_ply == 0) (board_planes b p.repetitions beyond)
      (history_boards fill stop_early rights count p [] flip false true) count
      (length-board_planes b p.repetitions beyond)
      (length-history_boards fill stop_early rights count p [] flip false true)
length-history_boards fill stop_early rights (suc count) p (q ∷ qs) flip first beyond =
    let b = if flip then p.them_board else p.us_board in
    length-one_board (breaks_before fill stop_early rights p b first beyond)
      (stop_early && p.rule50_ply == 0) (board_planes b p.repetitions beyond)
      (history_boards fill stop_early rights count q qs (not flip) false false) count
      (length-board_planes b p.repetitions beyond)
      (length-history_boards fill stop_early rights count q qs (not flip) false false)

length-transform_first :
    (transform n : ℕ) (ps : List InputPlane) → length (transform_first transform n ps) ≡ length ps
unfolding transform_first
length-transform_first transform zero ps = refl
length-transform_first transform (suc n) [] = refl
length-transform_first transform (suc n) (p ∷ ps) = ap suc (length-transform_first transform n ps)

length-unless :
    (kept : Bool) (transform n : ℕ) (ps : List InputPlane)
    → length (if kept then ps else transform_first transform n ps) ≡ length ps
length-unless true transform n ps = refl
length-unless false transform n ps = length-transform_first transform n ps

-- The input format is one of the five that the encoder writes.
abbrev pub is_supported : InputFormats → ℕ → Bool
is_supported f input_format =
    input_format == f.classical_112_plane
    || input_format == f.with_castling_plane
    || input_format == f.with_canonicalization
    || input_format == f.with_hectoplies
    || input_format == f.with_armageddon

module _ {A B : Type 0} (g : A → B) where
  is_some-on_some : (o : Option A) → is_some (on_some g o) ≡ is_some o
  is_some-on_some none = refl
  is_some-on_some (some x) = refl

  pub on_some-some :
      (o : Option A) (y : B) → on_some g o ≡ some y → (x : A) × (o ≡ some x) × (g x ≡ y)
  on_some-some none y h = absurd (none-ne-some y h)
  on_some-some (some x) y h = (x, refl, some-injective _ _ h)

module _ (f : InputFormats) (input_format : ℕ) where
  is_some-castling_planes :
      (c : Castlings) → is_some (castling_planes f input_format c) ≡ is_supported f input_format
  unfolding castling_planes
  is_some-castling_planes c = ground arith

  pub length-castling_planes :
      (c : Castlings) (ps : List InputPlane)
      → castling_planes f input_format c ≡ some ps
      → length ps ≡ 4
  unfolding castling_planes
  length-castling_planes c ps h = ground (arith, h)

  -- EncodePositionForNN gives a result for the five input formats that it knows, and throws for
  -- every other, whatever the history.
  pub is_some-encode_position :
      (last : Position) (earlier : List Position) (history_planes : ℕ) (fill : FillEmptyHistory)
      → is_some (encode_position f input_format last earlier history_planes fill)
        ≡ is_supported f input_format
  unfolding encode_position
  is_some-encode_position last earlier history_planes fill =
      is_some-on_some (encoded f input_format last earlier history_planes fill)
        (castling_planes f input_format last.us_board.castlings)
      ∙ is_some-castling_planes last.us_board.castlings

  -- The planes of the history, as EncodePositionForNN lays them out.
  abbrev pub past_boards : Position → List Position → ℕ → FillEmptyHistory → List InputPlane
  past_boards last earlier history_planes fill =
      history_boards fill (is_canonical f input_format) last.us_board.castlings.rights
        (min history_planes 8) last earlier false true false

  pub length-past_boards :
      (last : Position) (earlier : List Position) (history_planes : ℕ) (fill : FillEmptyHistory)
      → length (past_boards last earlier history_planes fill) ≤ 104
  length-past_boards last earlier history_planes fill = omega (
    arith,
    length-history_boards fill (is_canonical f input_format) last.us_board.castlings.rights
        (min history_planes 8) last earlier false true false,
  )

  pub length-encoded :
      (last : Position) (earlier : List Position) (history_planes : ℕ) (fill : FillEmptyHistory)
      (castling : List InputPlane)
      → length castling ≡ 4
      → length (encoded f input_format last earlier history_planes fill castling).0 ≡ 112
  unfolding encoded aux_planes
  length-encoded last earlier history_planes fill castling h =
      let transform = transform_for_position f input_format last in
      let boards = padded 104 (past_boards last earlier history_planes fill) in
      let aux = aux_planes f input_format last in
      length-unless (transform == 0) transform 109 (boards ++ castling ++ aux)
      ∙ length-append (boards ++ castling) aux
      ∙ ap (λ n. n + 4) (length-append boards castling)
      ∙ ap₂ (λ m n. m + n + 4)
          (length-padded 104 _ (length-past_boards last earlier history_planes fill)) h
