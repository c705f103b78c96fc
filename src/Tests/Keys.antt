-- ===== src/Tests/Keys.antt =====
-- The properties of arrays of longs at concrete inputs.
use btree_profiling.Common.{◌≡◌, [], ◌∷◌, arith, compare}
use btree_profiling.Words.{longcmp}
use btree_profiling.Words.Order.{value, longcmp-value}
use btree_profiling.Tests.{row, row-IsWords}

longcmp-value_example :
    longcmp (row (1 ∷ 9 ∷ [])) (row (2 ∷ 3 ∷ [])) 2
    ≡ compare (value (row (1 ∷ 9 ∷ [])) 2) (value (row (2 ∷ 3 ∷ [])) 2)
longcmp-value_example =
    longcmp-value (row (1 ∷ 9 ∷ [])) (row (2 ∷ 3 ∷ [])) 2 (row-IsWords (1 ∷ 9 ∷ []) 2 (omega arith))
      (row-IsWords (2 ∷ 3 ∷ []) 2 (omega arith))
