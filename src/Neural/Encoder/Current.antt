-- ===== src/Neural/Encoder/Current.antt =====
-- The planes of the current position in the result of EncodePositionForNN.
use fat_fritz.Common.{
  ℕ, zero, suc, ◌-◌, ◌<◌, ◌≤◌, ◌^◌, min, Bool, true, false, ◌==◌, if◌then◌else◌, List, [], ◌∷◌,
  ◌++◌, some, length, get_or, length-append, ◌≡◌, refl, ap, ◌↔◌, sym, ◌∙◌, subst, arith, Bool-cases,
  inl, inr,
}
use fat_fritz.Bits.{testbit, testbit-zero, testbit-mask}
use fat_fritz.Chess.Move.{transform_square}
use fat_fritz.Chess.Board.Look.{Kind, Side, piece_at}
use fat_fritz.Chess.Board.Valid.{IsValid}
use fat_fritz.Chess.Position.{Position}
use fat_fritz.Neural.Encoder.{
  InputFormats, InputPlane, plane_of, FillEmptyHistory, is_canonical, transform_for_position,
  board_planes, breaks_before, history_boards, padded, transform_plane, transform_first,
  castling_planes, aux_planes, encoded, encode_position,
}
use fat_fritz.Neural.Encoder.Canonical.{transform_word}
use fat_fritz.Neural.Encoder.Canonical.Words.{testbit-transform_word}
use fat_fritz.Neural.Encoder.Size.{length-padded, length-past_boards, on_some-some}
use fat_fritz.Neural.Encoder.Pieces.{plane_index, testbit-board_planes}

abbrev pub blank : InputPlane
blank = plane_of 0

pub get_or-append :
    (xs ys : List InputPlane) (i : ℕ)
    → i < length xs
    → get_or (xs ++ ys) i blank ≡ get_or xs i blank
get_or-append [] ys i h = absurd (omega arith)
get_or-append (x ∷ xs) ys zero h = refl
get_or-append (x ∷ xs) ys (suc i) h = get_or-append xs ys i (omega arith)

pub get_or-padded :
    (n : ℕ) (ps : List InputPlane) (i : ℕ)
    → i < n
    → get_or (padded n ps) i blank ≡ get_or ps i blank
unfolding padded
get_or-padded zero ps i h = absurd (omega arith)
get_or-padded (suc n) [] zero h = refl
get_or-padded (suc n) [] (suc i) h = get_or-padded n [] i (omega arith)
get_or-padded (suc n) (p ∷ ps) zero h = refl
get_or-padded (suc n) (p ∷ ps) (suc i) h = get_or-padded n ps i (omega arith)

pub get_or-transform_first :
    (transform n : ℕ) (ps : List InputPlane) (i : ℕ)
    → i < n
    → i < length ps
    → get_or (transform_first transform n ps) i blank
      ≡ transform_plane transform (get_or ps i blank)
unfolding transform_first
get_or-transform_first transform zero ps i h k = absurd (omega arith)
get_or-transform_first transform (suc n) [] i h k = absurd (omega arith)
get_or-transform_first transform (suc n) (p ∷ ps) zero h k = refl
get_or-transform_first transform (suc n) (p ∷ ps) (suc i) h k =
    get_or-transform_first transform n ps i (omega arith) (omega arith)

transform_square-small : (s transform : ℕ) → s < 64 → transform_square s transform < 64
unfolding transform_square
transform_square-small s transform h = ground arith

testbit-transform_plane :
    (transform : ℕ) (p : InputPlane) (s : ℕ)
    → s < 64
    → testbit (transform_plane transform p).mask (transform_square s transform) ≡ testbit p.mask s
unfolding transform_plane
testbit-transform_plane transform p s h =
    let small = transform_square-small s transform h in
    let t = transform_square s transform in
    let none_set : p.mask ≡ 0 → testbit p.mask t ≡ testbit p.mask s =
      λ e. rw (e) (testbit-zero t ∙ sym (testbit-zero s)) in
    let all_set : p.mask ≡ 2 ^ 64 - 1 → testbit p.mask t ≡ testbit p.mask s =
      λ e. rw (e) (testbit-mask 64 t ∙ ground arith ∙ sym (testbit-mask 64 s)) in
    ground (arith, testbit-transform_word transform p.mask s h, none_set, all_set)

plane_index-small : (side : Side) (k : Kind) → plane_index side k < 13
plane_index-small side k = ground arith

untransformed : (p : InputPlane) → transform_plane 0 p ≡ p
unfolding transform_plane transform_word
untransformed p = ground arith

pub get_or-transformed :
    (transform : ℕ) (ps : List InputPlane) (i : ℕ)
    → i < 109
    → i < length ps
    → get_or (if transform == 0 then ps else transform_first transform 109 ps) i blank
      ≡ transform_plane transform (get_or ps i blank)
get_or-transformed transform ps i h k = elim (Bool-cases (transform == 0)) [
  | inl zero_t ↦ rw (zero_t) (
      sym (untransformed (get_or ps i blank))
      ∙ ap (λ t. transform_plane t (get_or ps i blank)) {x = 0} {y = transform}
          (ground (arith, zero_t)))
  | inr off ↦ rw (off) (get_or-transform_first transform 109 ps i h k)
]

appended_first :
    (stops : Bool) (xs ys : List InputPlane) (i : ℕ)
    → stops ≡ false
    → i < length xs
    → get_or (if stops then [] else xs ++ ys) i blank ≡ get_or xs i blank
appended_first true xs ys i off h = absurd (ground (arith, off))
appended_first false xs ys i off h = get_or-append xs ys i h

module _ (fill : FillEmptyHistory) (stop_early : Bool) (last : Position) where
  goes_on :
      breaks_before fill stop_early last.us_board.castlings.rights last last.us_board true false
      ≡ false
  unfolding breaks_before
  goes_on = ground arith

  -- The loop starts with the current board.
  current_first :
      (count : ℕ) (earlier : List Position) (i : ℕ)
      → 1 ≤ count
      → i < 13
      → get_or
          (history_boards fill stop_early last.us_board.castlings.rights count last earlier false
            true false)
          i
          blank
        ≡ get_or (board_planes last.us_board last.repetitions false) i blank
  unfolding history_boards board_planes
  current_first zero earlier i h k = absurd (omega arith)
  current_first (suc count) [] i h k =
      appended_first
        (breaks_before fill stop_early last.us_board.castlings.rights last last.us_board true false)
        (board_planes last.us_board last.repetitions false) _ i goes_on k
  current_first (suc count) (q ∷ qs) i h k =
      appended_first
        (breaks_before fill stop_early last.us_board.castlings.rights last last.us_board true false)
        (board_planes last.us_board last.repetitions false) _ i goes_on k

module _ (f : InputFormats) (input_format : ℕ) (last : Position) (earlier : List Position) where
  plane_of_current :
      (history_planes : ℕ) (fill : FillEmptyHistory) (castling : List InputPlane) (i : ℕ)
      → 1 ≤ history_planes
      → i < 13
      → get_or (encoded f input_format last earlier history_planes fill castling).0 i blank
        ≡ transform_plane
            (transform_for_position f input_format last)
            (get_or (board_planes last.us_board last.repetitions false) i blank)
  unfolding encoded
  plane_of_current history_planes fill castling i h k =
      let transform = transform_for_position f input_format last in
      let boards =
        history_boards fill (is_canonical f input_format) last.us_board.castlings.rights
          (min history_planes 8) last earlier false true false in
      let aux = aux_planes f input_format last in
      let size =
        length-padded 104 boards
          (length-past_boards f input_format last earlier history_planes fill) in
      let sizes : i < length (padded 104 boards ++ castling) =
        omega (arith, length-append (padded 104 boards) castling, size) in
      let all_sizes : i < length (padded 104 boards ++ castling ++ aux) =
        omega (arith, length-append (padded 104 boards ++ castling) aux, sizes) in
      get_or-transformed transform (padded 104 boards ++ castling ++ aux) i (omega arith) all_sizes
      ∙ ap (transform_plane transform) (
          get_or-append (padded 104 boards ++ castling) aux i sizes
          ∙ get_or-append (padded 104 boards) castling i (omega (arith, size))
          ∙ get_or-padded 104 boards i (omega arith)
          ∙ current_first fill (is_canonical f input_format) last (min history_planes 8) earlier i
              (omega arith) k)

  -- When EncodePositionForNN returns planes and a transform for a history whose last board is
  -- valid, and at least one board of history is asked for, the plane of each side and kind has
  -- the square that a square of the board is transformed to set exactly when that piece stands on
  -- the square in the last position.
  pub encode_position-pieces :
      (history_planes : ℕ) (fill : FillEmptyHistory) (planes : List InputPlane) (transform : ℕ)
      (s : ℕ) (side : Side) (k : Kind)
      → IsValid last.us_board
      → 1 ≤ history_planes
      → s < 64
      → encode_position f input_format last earlier history_planes fill ≡ some (planes, transform)
      → (testbit (get_or planes (plane_index side k) blank).mask (transform_square s transform)
          ≡ true)
        ↔ (piece_at last.us_board s ≡ some (side, k))
  unfolding encode_position encoded
  encode_position-pieces history_planes fill planes transform s side k v h small e =
      let (castling, _, same) =
        on_some-some (encoded f input_format last earlier history_planes fill)
          (castling_planes f input_format last.us_board.castlings) _ e in
      let t = transform_for_position f input_format last in
      let plane =
        get_or (board_planes last.us_board last.repetitions false) (plane_index side k) blank in
      let bits : testbit (get_or planes (plane_index side k) blank).mask
            (transform_square s transform)
          ≡ testbit plane.mask s =
        subst
          (λ r.
            testbit (get_or r.0 (plane_index side k) blank).mask (transform_square s r.1)
            ≡ testbit plane.mask s)
          same
          (ap (λ p. testbit p.mask (transform_square s t))
              (plane_of_current history_planes fill castling (plane_index side k) h
                (plane_index-small side k))
            ∙ testbit-transform_plane t plane s small) in
      let (there, back) = testbit-board_planes last.us_board v s small last.repetitions side k in
      (λ on. there (sym bits ∙ on), λ on. bits ∙ back on)
