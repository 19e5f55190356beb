-- ===== src/Common/Loops.antt =====
-- Finite tables, checked by evaluation.
use Prim.Native.Nat.{ℕ, zero, suc, ◌<◌}
use mathlib.Core.Path.{◌≡◌}
use mathlib.Core.Bool.{Bool, true, ◌&&◌}
use native.Mathlib.Omega.{arith}

-- Whether a test passes at each of the numbers below `size`, the greatest first.
unfoldable pub all_below : ℕ → (ℕ → Bool) → Bool
all_below (suc size) test = let smaller = all_below size test in test size && smaller
all_below zero test = true

-- A test that holds at every value below `size` holds at each.
pub all_below_sound :
    (size : ℕ) (test : ℕ → Bool) (k : ℕ) → all_below size test ≡ true → k < size → test k ≡ true
unfolding all_below
all_below_sound (suc size) test k passed small =
    let smaller = all_below_sound size test k in ground (arith, smaller)
all_below_sound zero test k passed small = absurd (omega arith)
