-- ===== src/Chess/Position/Hash.antt =====
-- Position::Hash and PositionHistory::HashLast of src/chess/position.cc.
use fat_fritz.Common.{ℕ, zero, suc, List, [], ◌∷◌, ◌++◌, length, ◌≡◌, refl}
use fat_fritz.Utils.HashCat.{hash_cat, hash_cat_all}
use fat_fritz.Chess.Board.Hash.{board_hash}
use fat_fritz.Chess.Position.{Position}

-- Hash() of a position.
unfoldable pub position_hash : Position → ℕ
position_hash p = hash_cat_all (board_hash p.us_board ∷ p.repetitions ∷ [])

-- The loop of HashLast over the latest positions, `n` of them at most.
unfoldable pub hash_latest : ℕ → ℕ → List Position → ℕ
hash_latest h n [] = h
hash_latest h zero (p ∷ ps) = h
hash_latest h (suc n) (p ∷ ps) = hash_latest (hash_cat h (position_hash p)) n ps

-- HashLast(positions), of a history whose last position is `last`.
unfoldable pub hash_last : ℕ → Position → List Position → ℕ
hash_last n last earlier = hash_cat (hash_latest n n (last ∷ earlier)) last.rule50_ply

hash_latest-append :
    (h : ℕ) (recent earlier : List Position)
    → hash_latest h (length recent) (recent ++ earlier) ≡ hash_latest h (length recent) recent
unfolding hash_latest
hash_latest-append h [] [] = refl
hash_latest-append h [] (p ∷ ps) = refl
hash_latest-append h (p ∷ recent) earlier =
    hash_latest-append (hash_cat h (position_hash p)) recent earlier

-- The hash of as many of the latest positions as given does not depend on the positions before
-- them.
pub hash_last-recent :
    (last : Position) (recent earlier1 earlier2 : List Position)
    → hash_last (length (last ∷ recent)) last (recent ++ earlier1)
      ≡ hash_last (length (last ∷ recent)) last (recent ++ earlier2)
unfolding hash_last
hash_last-recent last recent earlier1 earlier2 =
    rw
      (
        hash_latest-append (length (last ∷ recent)) (last ∷ recent) earlier1,
        hash_latest-append (length (last ∷ recent)) (last ∷ recent) earlier2,
      )
      refl
