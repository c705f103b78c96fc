-- ===== src/Words.antt =====
-- Arrays of longs in cbtree_base.c: `longcmp`, `longcpy`, `longset`, `dec_key`, `keyzero`. Each loop
-- recurs on the rounds left. `Words.Order`, `Words.Copy` and `Words.Decrement` hold the proofs.
pub mod Order
pub mod Copy
pub mod Decrement
use btree_profiling.Common.{
  ℕ, zero, suc, ◌+◌, ◌-◌, ◌^◌, ◌%◌, Ordering, compare, Bool, true, false, ◌==◌, if◌then◌else◌,
}
use btree_profiling.Memory.{Words, update}

-- `unsigned long` has 64 bits.
abbrev pub word_mod : ℕ
word_mod = 2 ^ 64

-- The order of two arrays, word by word: `lt` is -1, `eq` 0, `gt` 1.
pub longcmp_loop : Words → Words → ℕ → ℕ → Ordering
longcmp_loop l1 l2 i zero = Ordering.eq
longcmp_loop l1 l2 i (suc n) = elim (compare (l1 i) (l2 i)) [
  | Ordering.lt ↦ Ordering.lt
  | Ordering.gt ↦ Ordering.gt
  | Ordering.eq ↦ longcmp_loop l1 l2 (suc i) n
]

unfoldable pub longcmp : Words → Words → ℕ → Ordering
unfolding longcmp_loop
longcmp l1 l2 n = longcmp_loop l1 l2 0 n

-- The destination is the part of the array `dest` that begins at `base`. The source is another
-- array, or a part of `dest` that the copy does not touch.
pub longcpy_loop : Words → ℕ → Words → ℕ → ℕ → Words
longcpy_loop dest base src i zero = dest
longcpy_loop dest base src i (suc n) =
    longcpy_loop (update dest (base + i) (src i)) base src (suc i) n

unfoldable pub longcpy : Words → ℕ → Words → ℕ → Words
unfolding longcpy_loop update
longcpy dest base src n = longcpy_loop dest base src 0 n

pub longset_loop : Words → ℕ → ℕ → ℕ → ℕ → Words
longset_loop s base c i zero = s
longset_loop s base c i (suc n) = longset_loop (update s (base + i) c) base c (suc i) n

unfoldable pub longset : Words → ℕ → ℕ → ℕ → Words
unfolding longset_loop update
longset s base c n = longset_loop s base c 0 n

-- `for (i = keylen - 1; i >= 0; i--)`: word `i` is the last of `suc i` that are left.
unfoldable pub dec_key : ℕ → Words → Words
unfolding update
dec_key zero key = key
dec_key (suc i) key =
    let lowered = update key i ((key i + word_mod - 1) % word_mod) in
    elim (key i == 0) [ true ↦ dec_key i lowered | false ↦ lowered ]

pub keyzero_loop : Words → ℕ → ℕ → Bool
keyzero_loop key i zero = true
keyzero_loop key i (suc n) = elim (key i == 0) [ true ↦ keyzero_loop key (suc i) n | false ↦ false ]

unfoldable pub keyzero : ℕ → Words → Bool
unfolding keyzero_loop
keyzero keylen key = keyzero_loop key 0 keylen
