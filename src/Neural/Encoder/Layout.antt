-- ===== src/Neural/Encoder/Layout.antt =====
-- Where EncodePositionForNN puts its planes.
use mathlib.Core.Option.{some-injective}
use fat_fritz.Common.{
  ℕ, zero, suc, ◌+◌, ◌<◌, ◌≤◌, true, ◌&&◌, ◌==◌, if◌then◌else◌, List, [], ◌∷◌, ◌++◌, some, length,
  get_or, length-append, ◌≡◌, refl, ap, sym, ◌∙◌, subst, arith, Bool-cases, inl, inr,
}
use fat_fritz.Chess.Board.{en_passant}
use fat_fritz.Chess.Position.{Position}
use fat_fritz.Neural.Encoder.{
  InputFormats, InputPlane, plane_of, all_if, filled, plies, hundredths, FillEmptyHistory,
  is_canonical, is_hectoplies, is_armageddon, transform_for_position, padded, transform_plane,
  transform_first, castling_planes, aux_planes, encoded, encode_position,
}
use fat_fritz.Neural.Encoder.Size.{
  length-padded, past_boards, length-past_boards, length-encoded, length-castling_planes,
  on_some-some,
}
use fat_fritz.Neural.Encoder.Current.{blank, get_or-append, get_or-padded, get_or-transformed}

get_or-behind :
    (xs ys : List InputPlane) (i j : ℕ)
    → j ≡ length xs + i
    → get_or (xs ++ ys) j blank ≡ get_or ys i blank
get_or-behind [] ys i j e = ap (λ k. get_or ys k blank) {x = j} {y = i} (omega (arith, e))
get_or-behind (x ∷ xs) ys i zero e = absurd (omega (arith, e))
get_or-behind (x ∷ xs) ys i (suc j) e = get_or-behind xs ys i j (omega (arith, e))

get_or-past_transform :
    (transform n j : ℕ) (ps : List InputPlane)
    → n ≤ j
    → get_or (transform_first transform n ps) j blank ≡ get_or ps j blank
unfolding transform_first
get_or-past_transform transform zero j ps h = refl
get_or-past_transform transform (suc n) j [] h = refl
get_or-past_transform transform (suc n) zero (p ∷ ps) h = absurd (omega arith)
get_or-past_transform transform (suc n) (suc j) (p ∷ ps) h =
    get_or-past_transform transform n j ps (omega arith)

get_or-untransformed :
    (transform j : ℕ) (ps : List InputPlane)
    → 109 ≤ j
    → get_or (if transform == 0 then ps else transform_first transform 109 ps) j blank
      ≡ get_or ps j blank
get_or-untransformed transform j ps h = elim (Bool-cases (transform == 0)) [
  | inl on ↦ rw (on) refl
  | inr off ↦ rw (off) (get_or-past_transform transform 109 j ps h)
]

module _ (boards castling aux : List InputPlane) (small : length boards ≤ 104)
    (four : length castling ≡ 4) where
  size_before : length (padded 104 boards ++ castling) ≡ 108
  size_before =
      omega
        (arith, length-append (padded 104 boards) castling, length-padded 104 boards small, four)

  board_place :
      (i : ℕ)
      → i < 104
      → get_or (padded 104 boards ++ castling ++ aux) i blank ≡ get_or boards i blank
  board_place i h =
      get_or-append (padded 104 boards ++ castling) aux i (omega (arith, size_before))
      ∙ get_or-append (padded 104 boards) castling i (omega (arith, length-padded 104 boards small))
      ∙ get_or-padded 104 boards i h

  castling_place :
      (i : ℕ)
      → i < 4
      → get_or (padded 104 boards ++ castling ++ aux) (104 + i) blank ≡ get_or castling i blank
  castling_place i h =
      get_or-append (padded 104 boards ++ castling) aux (104 + i) (omega (arith, size_before))
      ∙ get_or-behind (padded 104 boards) castling i (104 + i)
          (omega (arith, length-padded 104 boards small))

  aux_place :
      (i : ℕ) → get_or (padded 104 boards ++ castling ++ aux) (108 + i) blank ≡ get_or aux i blank
  aux_place i =
      get_or-behind (padded 104 boards ++ castling) aux i (108 + i) (omega (arith, size_before))

  -- The places after the transform of the first 109 planes.
  transformed_place :
      (transform i : ℕ)
      → length aux ≡ 4
      → i < 109
      → get_or
          (if transform == 0
            then padded 104 boards ++ castling ++ aux
            else transform_first transform 109 (padded 104 boards ++ castling ++ aux))
          i
          blank
        ≡ transform_plane transform (get_or (padded 104 boards ++ castling ++ aux) i blank)
  transformed_place transform i four_more h =
      get_or-transformed transform (padded 104 boards ++ castling ++ aux) i h
        (omega (arith, length-append (padded 104 boards ++ castling) aux, size_before, four_more))

module _ (f : InputFormats) (input_format : ℕ) (last : Position) (boards : List InputPlane)
    (castling : List InputPlane) where
  -- What stands at each of 112 planes: the first 104 are those that the loop over the history writes,
  -- empty ones after them, the next 4 those of castling, and then come the en passant flags or the
  -- side, the 50 moves counter, the side, and all ones. The first 109 are transformed.
  pub record IsLaidOut (planes : List InputPlane) (transform : ℕ) : Type 0 where
    pub size : length planes ≡ 112
    pub chosen : transform ≡ transform_for_position f input_format last
    pub history :
        (i : ℕ)
        → i < 104
        → get_or planes i blank ≡ transform_plane transform (get_or boards i blank)
    pub rights :
        (i : ℕ)
        → i < 4
        → get_or planes (104 + i) blank ≡ transform_plane transform (get_or castling i blank)
    pub flags_or_side :
        get_or planes 108 blank
        ≡ transform_plane transform (
            if is_canonical f input_format
            then plane_of (en_passant last.us_board)
            else all_if last.us_board.flipped)
    pub fifty_moves :
        get_or planes 109 blank
        ≡ filled (
            if is_hectoplies f input_format
            then hundredths last.rule50_ply
            else plies last.rule50_ply)
    pub side :
        get_or planes 110 blank ≡ all_if (is_armageddon f input_format && last.us_board.flipped)
    pub all_ones : get_or planes 111 blank ≡ all_if true

module _ (f : InputFormats) (input_format : ℕ) (last : Position) (earlier : List Position)
    (history_planes : ℕ) (fill : FillEmptyHistory) where
  encoded-IsLaidOut :
      (castling : List InputPlane)
      → length castling ≡ 4
      → IsLaidOut f input_format last
          (past_boards f input_format last earlier history_planes fill)
          castling
          (encoded f input_format last earlier history_planes fill castling).0
          (transform_for_position f input_format last)
  unfolding encoded aux_planes
  encoded-IsLaidOut castling four =
      let boards = past_boards f input_format last earlier history_planes fill in
      let small = length-past_boards f input_format last earlier history_planes fill in
      let aux = aux_planes f input_format last in
      let t = transform_for_position f input_format last in
      let planes = padded 104 boards ++ castling ++ aux in
      let early = λ (i : ℕ). transformed_place boards castling aux small four t i refl in
      let late = λ (i : ℕ). aux_place boards castling aux small four i in
      record {
        size = length-encoded f input_format last earlier history_planes fill castling four;
        chosen = refl;
        history = λ i h.
            early i (omega (arith, h))
            ∙ ap (transform_plane t) (board_place boards castling aux small four i h);
        rights = λ i h.
            early (104 + i) (omega (arith, h))
            ∙ ap (transform_plane t) (castling_place boards castling aux small four i h);
        flags_or_side = early 108 (omega arith) ∙ ap (transform_plane t) (late 0);
        fifty_moves = get_or-untransformed t 109 planes (omega arith) ∙ late 1;
        side = get_or-untransformed t 110 planes (omega arith) ∙ late 2;
        all_ones = get_or-untransformed t 111 planes (omega arith) ∙ late 3;
      }

  -- When EncodePositionForNN returns, it gives the transform of TransformForPosition and exactly
  -- 112 planes, whatever the length of the history and however many boards of it are asked for:
  -- the first 104 are those that the loop over the history writes, empty ones after them, the
  -- next 4 those of castling, and then come the en passant flags or the side, the 50 moves
  -- counter, the side, and all ones, the first 109 of all transformed.
  pub encode_position-IsLaidOut :
      (castling planes : List InputPlane) (transform : ℕ)
      → castling_planes f input_format last.us_board.castlings ≡ some castling
      → encode_position f input_format last earlier history_planes fill ≡ some (planes, transform)
      → IsLaidOut f input_format last
          (past_boards f input_format last earlier history_planes fill)
          castling
          planes
          transform
  unfolding encode_position encoded
  encode_position-IsLaidOut castling planes transform c e =
      let (castling', c', same) =
        on_some-some (encoded f input_format last earlier history_planes fill)
          (castling_planes f input_format last.us_board.castlings) _ e in
      let four = length-castling_planes f input_format last.us_board.castlings castling c in
      let equal : castling' ≡ castling = some-injective _ _ (sym c' ∙ c) in
      let same' : encoded f input_format last earlier history_planes fill castling
          ≡ (planes, transform) =
        ap (encoded f input_format last earlier history_planes fill) (sym equal) ∙ same in
      subst
        (λ (r : List InputPlane × ℕ).
          IsLaidOut f input_format last
            (past_boards f input_format last earlier history_planes fill) castling r.0 r.1)
        same' (encoded-IsLaidOut castling four)
