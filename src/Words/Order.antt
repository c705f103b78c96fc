-- ===== src/Words/Order.antt =====
-- The number that an array of longs stands for, and the order of `longcmp` in cbtree_base.c.
use btree_profiling.Common.{ℕ, zero, suc, ◌+◌, ◌*◌, ◌<◌, ◌≡◌, refl, compare, arith, ◌==◌}
use btree_profiling.Memory.{Words}
use btree_profiling.Words.{word_mod, longcmp, longcmp_loop, keyzero, keyzero_loop}

-- The first `n` words, the most significant first.
unfoldable pub value : Words → ℕ → ℕ
value l zero = 0
value l (suc n) = value l n * word_mod + l n

-- The first `n` entries are machine words.
abbrev pub IsWords : Words → ℕ → Type 0
IsWords l n = (i : ℕ) → i < n → l i < word_mod

-- A number that is not 0 stays so when words are added behind it.
value_pos : (l : Words) (i n m : ℕ) → i + n ≡ m → 0 < value l i → 0 < value l m
unfolding value
value_pos l i zero m e h = let e' : m ≡ i = omega arith in rw e' h
value_pos l i (suc n) m e h = value_pos l (suc i) n m (omega arith) (omega arith)

value_mono :
    (l1 l2 : Words) (i n m : ℕ)
    → i + n ≡ m
    → IsWords l1 m
    → value l1 i < value l2 i
    → value l1 m < value l2 m
unfolding value
value_mono l1 l2 i zero m e w h = let e' : m ≡ i = omega arith in rw e' h
value_mono l1 l2 i (suc n) m e w h =
    value_mono l1 l2 (suc i) n m (omega arith) w (omega (arith, w i (omega arith)))

longcmp_loop-value :
    (l1 l2 : Words) (i n m : ℕ)
    → i + n ≡ m
    → IsWords l1 m
    → IsWords l2 m
    → value l1 i ≡ value l2 i
    → longcmp_loop l1 l2 i n ≡ compare (value l1 m) (value l2 m)
unfolding longcmp_loop value
longcmp_loop-value l1 l2 i zero m e w1 w2 h = let e' : m ≡ i = omega arith in rw e' (ground arith)
longcmp_loop-value l1 l2 i (suc n) m e w1 w2 h = ground (
  arith,
  w1 i (omega arith),
  w2 i (omega arith),
  value_mono l1 l2 (suc i) n m (omega arith) w1,
  value_mono l2 l1 (suc i) n m (omega arith) w2,
  longcmp_loop-value l1 l2 (suc i) n m (omega arith) w1 w2,
)

-- `longcmp` orders arrays of machine words as the numbers that they stand for, the first word
-- being the most significant.
pub longcmp-value :
    (l1 l2 : Words) (n : ℕ)
    → IsWords l1 n
    → IsWords l2 n
    → longcmp l1 l2 n ≡ compare (value l1 n) (value l2 n)
unfolding longcmp value
longcmp-value l1 l2 n w1 w2 = longcmp_loop-value l1 l2 0 n n (omega arith) w1 w2 refl

keyzero_loop-value :
    (key : Words) (i n m : ℕ)
    → i + n ≡ m
    → value key i ≡ 0
    → keyzero_loop key i n ≡ (value key m == 0)
unfolding keyzero_loop value
keyzero_loop-value key i zero m e h = let e' : m ≡ i = omega arith in rw e' (ground arith)
keyzero_loop-value key i (suc n) m e h =
    ground (arith, keyzero_loop-value key (suc i) n m (omega arith), value_pos key (suc i) n m)

-- `keyzero` tells whether an array of longs stands for 0.
pub keyzero-value : (n : ℕ) (key : Words) → keyzero n key ≡ (value key n == 0)
unfolding keyzero value
keyzero-value n key = keyzero_loop-value key 0 n n (omega arith) refl

-- The number of one word.
pub value_one : (w : Words) {n : ℕ} → n ≡ 1 → value w n ≡ w 0
unfolding value
value_one w one = rw one (omega arith)
