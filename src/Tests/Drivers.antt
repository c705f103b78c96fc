-- ===== src/Tests/Drivers.antt =====
-- The benchmark at a concrete kernel and a leaf of two entries.
use btree_profiling.Common.{ℕ, ◌+◌, ◌*◌, ◌%◌, ◌^◌, ◌≤◌, ◌<◌, [], ◌∷◌, arith, ltb, if◌then◌else◌}
use btree_profiling.Clock.Timing.{no_clocks}
use btree_profiling.Driver.{Kernel, World}
use btree_profiling.Driver.Rounds.{Rounds}
use btree_profiling.Tests.{env, first_free}
use btree_profiling.Tests.Clocks.{plain_ktime}
use btree_profiling.Tests.Loops.{leaf_block}

-- A clock that stops at 1000.
abbrev reading : ℕ → ℕ × ℕ
reading k = if ltb k 1000 then (k, k + 1) else (1000, k)

reading_small : (k : ℕ) → (reading k).0 < 2 ^ 63
reading_small k = ground arith

reading_forward : (k : ℕ) → (reading k).0 ≤ (reading (reading k).1).0
reading_forward k = ground arith

abbrev kernel : Kernel ℕ
kernel = record {
  ktime = plain_ktime;
  ktime_get_raw = reading;
  this_cpu = λ k. k % 2;
  get_random_bytes = λ k. (k * 7 + 3, k + 1);
  kmem_cache_create = λ k. (1, k);
  kmem_cache_destroy = λ a k. k;
  btree_init = λ k. k;
  btree_insert = λ key v k. k;
  btree_lookup = λ key k. 0;
  btree_destroy = λ k. k;
  env = env;
  stack = first_free 200 2;
  online = 0 ∷ 1 ∷ [];
  digits = λ n. n ∷ [];
  num_online_cpus = 2;
  nodesize = 128;
  small = reading_small;
  forward = reading_forward;
}

abbrev world : World ℕ
world = record {
  mem = leaf_block;
  kernel = 0;
  search_counts = λ j. 0;
  btree_cachep = 1;
  cbtree_cachep = 1;
  btree_insert_clock = no_clocks;
  btree_lookup_clock = no_clocks;
  cbtree_insert_clock = no_clocks;
  cbtree_lookup_clock = no_clocks;
  totaltime = 1;
}
