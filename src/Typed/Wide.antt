-- ===== src/Typed/Wide.antt =====
-- The functions of cbtree-128.h: keys of two longs. A caller's variable that a function writes is its
-- argument and, with the new value, in its result.
use btree_profiling.Common.{ℕ, ◌==◌, if◌then◌else◌, Option, none, some}
use btree_profiling.Memory.{Addr, null, Words, Head, Cmd, pure, ◌>>=◌, Env}
use btree_profiling.Node.{Geo, cbtree_geo128}
use btree_profiling.Tree.{Status, cbtree_last, cbtree_init_mempool, cbtree_init, cbtree_destroy}
use btree_profiling.Tree.Lookup.{cbtree_lookup, cbtree_update}
use btree_profiling.Tree.Insert.{cbtree_insert}
use btree_profiling.Tree.Remove.{cbtree_remove}
use btree_profiling.Tree.Merge.{cbtree_merge}
use btree_profiling.Tree.Prev.{cbtree_get_prev}
use btree_profiling.Typed.{Stack, with_local, two_longs}

unfoldable pub cbtree_init_mempool128 : Addr → Cmd (Unit {0})
cbtree_init_mempool128 mempool = cbtree_init_mempool mempool

unfoldable pub cbtree_init128 : Env → Cmd Status
cbtree_init128 env = cbtree_init env

unfoldable pub cbtree_destroy128 : Cmd (Unit {0})
cbtree_destroy128 = cbtree_destroy

-- `if (val) { *k1 = key[0]; *k2 = key[1]; }`
abbrev last_keys : ℕ → ℕ → Option (ℕ × Words) → ℕ × ℕ × ℕ
last_keys k1 k2 none = (null, k1, k2)
last_keys k1 k2 (some (v, k)) = if v == null then (v, k1, k2) else (v, k 0, k 1)

-- `*k1 = key[0]; *k2 = key[1];`, where the array is as it was when nothing is found.
abbrev prev_keys : ℕ → ℕ → Option (ℕ × Words) → ℕ × ℕ × ℕ
prev_keys k1 k2 none = (null, k1, k2)
prev_keys k1 k2 (some (v, k)) = (v, k 0, k 1)

module _ (stack : Stack) (nodesize : ℕ) where
  -- `cbtree_geo128` on a machine with longs of eight bytes.
  abbrev geo : Geo
  geo = cbtree_geo128 nodesize 8

  unfoldable pub cbtree_lookup128 : ℕ → ℕ → ℕ → Cmd Addr
  unfolding with_local
  cbtree_lookup128 fuel k1 k2 = with_local stack 2 (two_longs k1 k2) (λ p. cbtree_lookup fuel geo p)

  unfoldable pub cbtree_get_prev128 : ℕ → ℕ → ℕ → Cmd (ℕ × ℕ × ℕ)
  unfolding with_local
  cbtree_get_prev128 fuel k1 k2 = do
    found ← with_local stack 2 (two_longs k1 k2) (λ p. cbtree_get_prev fuel geo p)
    pure (prev_keys k1 k2 found)

  unfoldable pub cbtree_insert128 : ℕ → Env → ℕ → ℕ → ℕ → Cmd Status
  unfolding with_local
  cbtree_insert128 fuel env k1 k2 val =
      with_local stack 2 (two_longs k1 k2) (λ p. cbtree_insert fuel env geo p val)

  unfoldable pub cbtree_update128 : ℕ → ℕ → ℕ → ℕ → Cmd Status
  unfolding with_local
  cbtree_update128 fuel k1 k2 val =
      with_local stack 2 (two_longs k1 k2) (λ p. cbtree_update fuel geo p val)

  unfoldable pub cbtree_remove128 : ℕ → ℕ → ℕ → Cmd ℕ
  unfolding with_local
  cbtree_remove128 fuel k1 k2 = with_local stack 2 (two_longs k1 k2) (λ p. cbtree_remove fuel geo p)

  unfoldable pub cbtree_last128 : ℕ → ℕ → Cmd (ℕ × ℕ × ℕ)
  cbtree_last128 k1 k2 = do found ← cbtree_last geo; pure (last_keys k1 k2 found)

  unfoldable pub cbtree_merge128 : Env → Addr → Addr → ℕ → Addr → Addr → Head → Cmd (Status × Head)
  cbtree_merge128 env key_buf dup_buf fuel target victim_at victim =
      cbtree_merge env geo key_buf dup_buf fuel target victim_at victim
