-- ===== src/Sums.antt =====
-- Sums over lists, and how often something is in a list.
use btree_profiling.Common.{ℕ, suc, ◌+◌, ◌≡◌, List, [], ◌∷◌, arith, ◌==◌, if◌then◌else◌}

-- How often an index is among those of the things.
abbrev pub occurrences : {E : Type 0} → (E → ℕ) → ℕ → List E → ℕ
occurrences get i [] = 0
occurrences get i (e ∷ es) = if i == get e then suc (occurrences get i es) else occurrences get i es

-- How often a number is in a list.
abbrev pub times : ℕ → List ℕ → ℕ
times i [] = 0
times i (j ∷ js) = if i == j then suc (times i js) else times i js

abbrev pub sum_over : (ℕ → ℕ) → List ℕ → ℕ
sum_over f [] = 0
sum_over f (j ∷ js) = f j + sum_over f js

-- One more at one number.
pub sum_over-add :
    (f : ℕ → ℕ) (i : ℕ) (js : List ℕ)
    → sum_over (λ j. if j == i then f j + 1 else f j) js ≡ sum_over f js + times i js
sum_over-add f i [] = omega arith
sum_over-add f i (k ∷ js) = ground (arith, sum_over-add f i js)
