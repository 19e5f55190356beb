-- ===== src/Mcts/Tests.antt =====
-- Edges with concrete probabilities.
use fat_fritz.Common.{◌+◌, ◌^◌, ◌<◌, ◌≤◌, ◌≡◌, arith}
use fat_fritz.Mcts.Edge.{Edge, set_p, get_p}
use fat_fritz.Mcts.Edge.Rounding.{get_p-set_p, set_p-get_p}

abbrev half : Edge
half = record { move = 0; p = 0xF000 }

-- The bits of 0.3.
get_p-set_p_example :
    (get_p (set_p half 0x3E99999A) ≤ 0x3E99999A + 2 ^ 11)
    × (0x3E99999A < get_p (set_p half 0x3E99999A) + 2 ^ 11)
get_p-set_p_example = get_p-set_p half 0x3E99999A (omega arith) (omega arith)

set_p-get_p_example : set_p half (get_p half) ≡ half
set_p-get_p_example = set_p-get_p half (omega arith)
