-- ===== src/Words/Copy.antt =====
-- What `longcpy` and `longset` of cbtree_base.c write, and what they leave.
use btree_profiling.Common.{ℕ, zero, suc, ◌+◌, ◌-◌, ◌≡◌, ◌&&◌, arith, ltb, leb, if◌then◌else◌}
use btree_profiling.Memory.{Words, update}
use btree_profiling.Words.{longcpy, longcpy_loop, longset, longset_loop}

longcpy_loop_lem :
    (dest : Words) (base : ℕ) (src : Words) (i n j : ℕ)
    → longcpy_loop dest base src i n j
      ≡ (if leb (base + i) j && ltb j (base + i + n) then src (j - base) else dest j)
unfolding longcpy_loop update
longcpy_loop_lem dest base src i zero j = ground arith
longcpy_loop_lem dest base src i (suc n) j =
    ground (arith, longcpy_loop_lem (update dest (base + i) (src i)) base src (suc i) n j)

-- `longcpy` writes the `n` words of the source from `base` on, and leaves the rest.
pub longcpy_lem :
    (dest : Words) (base : ℕ) (src : Words) (n j : ℕ)
    → longcpy dest base src n j
      ≡ (if leb base j && ltb j (base + n) then src (j - base) else dest j)
unfolding longcpy
longcpy_lem dest base src n j = ground (arith, longcpy_loop_lem dest base src 0 n j)

longset_loop_lem :
    (s : Words) (base c i n j : ℕ)
    → longset_loop s base c i n j ≡ (if leb (base + i) j && ltb j (base + i + n) then c else s j)
unfolding longset_loop update
longset_loop_lem s base c i zero j = ground arith
longset_loop_lem s base c i (suc n) j =
    ground (arith, longset_loop_lem (update s (base + i) c) base c (suc i) n j)

-- `longset` writes `n` copies of the value, and leaves the rest.
pub longset_lem :
    (s : Words) (base c n j : ℕ)
    → longset s base c n j ≡ (if leb base j && ltb j (base + n) then c else s j)
unfolding longset
longset_lem s base c n j = ground (arith, longset_loop_lem s base c 0 n j)
