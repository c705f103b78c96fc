-- ===== src/Tree/Prev.antt =====
-- `cbtree_get_prev` of cbtree_base.c. The key that the source writes to the caller's buffer is part of
-- the result.
pub mod Leaf
pub mod Before
pub mod Climb
pub mod Frame
pub mod Leaves
pub mod Walk
pub mod Wrap
use btree_profiling.Common.{ℕ, zero, suc, ◌-◌, ◌==◌, if◌then◌else◌, Option, none, some}
use btree_profiling.Memory.{Addr, null, Words, Cmd, pure, ◌>>=◌, starving, Ptr, get_head}
use btree_profiling.Words.{dec_key, keyzero}
use btree_profiling.Node.{Geo, bkey, bval, getpos}
use btree_profiling.Tree.{read_node, read_key}

-- The walk to a leaf with the levels left to go down, and the last parent key met on the way. The walk
-- may miss.
pub prev_walk : Geo → ℕ → Addr → Words → Option Words → Cmd (Addr × Option Words)
prev_walk geo zero node key retry_key = pure (node, retry_key)
prev_walk geo (suc h) node key retry_key = do
  w ← read_node geo node
  let i = getpos geo w key
  if i == geo.no_pairs
      then pure (null, retry_key)
      else if bval geo w i == null
      then pure (null, retry_key)
      else prev_walk geo h (bval geo w i) key (some (bkey geo w i))

-- The first entry of a leaf that is not above the key.
unfoldable pub prev_in_leaf : Geo → Addr → Words → Cmd (Option (ℕ × Words))
prev_in_leaf geo node key = if node == null then pure none else do
  w ← read_node geo node
  let i = getpos geo w key
  pure (
      if i == geo.no_pairs
      then none
      else if bval geo w i == null
      then none
      else some (bval geo w i, bkey geo w i))

-- From the label `retry` on: one unit of fuel for each walk.
pub prev_retry : ℕ → Geo → Words → Cmd (Option (ℕ × Words))
unfolding prev_walk prev_in_leaf
prev_retry zero geo key = starving
prev_retry (suc f) geo key = do
  h ← get_head
  let lower = dec_key geo.keylen key
  (leaf, retry_key) ← prev_walk geo (h.height - 1) h.node lower none
  found ← prev_in_leaf geo leaf lower
  elim found [
    | some entry ↦ pure (some entry)
    | none ↦ elim retry_key [ none ↦ pure none | some k ↦ prev_retry f geo k ]
  ]

unfoldable pub cbtree_get_prev : ℕ → Geo → Ptr → Cmd (Option (ℕ × Words))
unfolding prev_retry read_key
cbtree_get_prev fuel geo key = do
  k ← read_key geo key
  if keyzero geo.keylen k
      then pure none
      else do h ← get_head; if h.height == 0 then pure none else prev_retry fuel geo k
