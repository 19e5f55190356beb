-- ===== src/Chess/Move/Network/Index.antt =====
-- The policy index and the table of moves are inverse to each other.
use fat_fritz.Common.{
  ℕ, zero, suc, ◌+◌, ◌<◌, Bool, true, false, not, List, [], ◌∷◌, ◌++◌, ◌&&◌, ◌==◌, ltb, leb, length,
  get_or, concat_map, ◌≡◌, refl, ◌∙◌, arith,
}
use fat_fritz.Chess.Move.{Move, move, promoting, to, from, promotion, as_packed_int}
use fat_fritz.Chess.Move.Network.{
  idx_to_move, plain_moves, promotion_moves, build_move_indices, move_to_idx, as_nn_index,
}

-- No move of the list has the packed number `k`.
unfoldable fresh : ℕ → List Move → Bool
fresh k [] = true
fresh k (m ∷ ms) = not (as_packed_int m == k) && fresh k ms

unfoldable distinct : List Move → Bool
distinct [] = true
distinct (m ∷ ms) = fresh (as_packed_int m) ms && distinct ms

-- The packed numbers ascend, from `lo` on.
unfoldable ascending : ℕ → List Move → Bool
ascending lo [] = true
ascending lo (m ∷ ms) = leb lo (as_packed_int m) && ascending (as_packed_int m + 1) ms

unfoldable all_from : ℕ → List Move → Bool
all_from lo [] = true
all_from lo (m ∷ ms) = leb lo (as_packed_int m) && all_from lo ms

unfoldable all_under : ℕ → List Move → Bool
all_under hi [] = true
all_under hi (m ∷ ms) = ltb (as_packed_int m) hi && all_under hi ms

ascending-fresh : (k lo : ℕ) (ms : List Move) → k < lo → ascending lo ms ≡ true → fresh k ms ≡ true
unfolding ascending fresh
ascending-fresh k lo [] h a = refl
ascending-fresh k lo (m ∷ ms) h a =
    let later = ascending-fresh k (as_packed_int m + 1) ms in ground (arith, later)

all_from-fresh : (k lo : ℕ) (ms : List Move) → k < lo → all_from lo ms ≡ true → fresh k ms ≡ true
unfolding all_from fresh
all_from-fresh k lo [] h a = refl
all_from-fresh k lo (m ∷ ms) h a = ground (arith, all_from-fresh k lo ms h)

fresh-append :
    (k : ℕ) (ms ns : List Move) → fresh k ms ≡ true → fresh k ns ≡ true → fresh k (ms ++ ns) ≡ true
unfolding fresh
fresh-append k [] ns h e = e
fresh-append k (m ∷ ms) ns h e = let later = fresh-append k ms ns in ground (arith, later)

-- Ascending numbers under `hi`, then distinct ones from `hi` on, are distinct.
distinct-append :
    (lo hi : ℕ) (ms ns : List Move)
    → ascending lo ms ≡ true
    → all_under hi ms ≡ true
    → all_from hi ns ≡ true
    → distinct ns ≡ true
    → distinct (ms ++ ns) ≡ true
unfolding ascending all_under distinct
distinct-append lo hi [] ns a u f d = d
distinct-append lo hi (m ∷ ms) ns a u f d =
    let later = distinct-append (as_packed_int m + 1) hi ms ns in
    let own = ascending-fresh (as_packed_int m) (as_packed_int m + 1) ms (omega arith) in
    let others = all_from-fresh (as_packed_int m) hi ns in
    let both = fresh-append (as_packed_int m) ms ns in
    ground (arith, later, own, others, both, f, d)

build-fresh :
    (ms : List Move) (i k : ℕ) (res : ℕ → ℕ)
    → fresh k ms ≡ true
    → build_move_indices ms i res k ≡ res k
unfolding fresh build_move_indices
build-fresh [] i k res h = refl
build-fresh (m ∷ ms) i k res h =
    let here : (as_packed_int m == k) ≡ false = ground (arith, h) in
    build-fresh ms (i + 1) k _ (ground (arith, h)) ∙ rw (here) refl

-- In a list of distinct moves the index of each is its place.
build-distinct :
    (ms : List Move) (i k : ℕ) (res : ℕ → ℕ)
    → distinct ms ≡ true
    → k < length ms
    → build_move_indices ms i res (as_packed_int (get_or ms k 0)) ≡ i + k
unfolding distinct build_move_indices
build-distinct [] i k res h hk = absurd (omega arith)
build-distinct (m ∷ ms) i zero res h hk =
    let here : (as_packed_int m == as_packed_int m) ≡ true = ground arith in
    build-fresh ms (i + 1) (as_packed_int m) _ (ground (arith, h)) ∙ rw (here) (omega arith)
build-distinct (m ∷ ms) i (suc k) res h hk =
    build-distinct ms (i + 1) k _ (ground (arith, h)) (omega arith) ∙ omega arith

plain_ascending : ascending 0 plain_moves ≡ true
unfolding ascending plain_moves concat_map as_packed_int move to from promotion
plain_ascending = refl

plain_under : all_under 4096 plain_moves ≡ true
unfolding all_under plain_moves concat_map as_packed_int move to from promotion
plain_under = refl

promotions_from : all_from 4096 promotion_moves ≡ true
unfolding all_from promotion_moves as_packed_int promoting to from promotion
promotions_from = refl

promotions_distinct : distinct promotion_moves ≡ true
unfolding distinct fresh promotion_moves as_packed_int promoting to from promotion
promotions_distinct = refl

table_length : length idx_to_move ≡ 1858
unfolding idx_to_move plain_moves promotion_moves concat_map
table_length = refl

table_distinct : distinct idx_to_move ≡ true
unfolding idx_to_move
table_distinct =
    distinct-append 0 4096 plain_moves promotion_moves plain_ascending plain_under promotions_from
      promotions_distinct

-- The table of policy moves has 1858 moves, and the policy index of each one is its place in the
-- table.
pub as_nn_index-idx_to_move :
    (i : ℕ) → i < 1858 → (length idx_to_move ≡ 1858) × (as_nn_index (get_or idx_to_move i 0) 0 ≡ i)
unfolding as_nn_index move_to_idx
as_nn_index-idx_to_move i h = (
  table_length,
  build-distinct idx_to_move 0 i (λ _. 0) table_distinct (omega (arith, table_length))
      ∙ omega arith,
)
