-- ===== src/Tree/Visit.antt =====
-- The visitors of cbtree_base.c. The calls that are made of the caller's function are collected in
-- order; the function itself is the caller's. `depth` is the height less one.
pub mod Order
pub mod Insert
pub mod Grim
pub mod Remove
use btree_profiling.Common.{
  ℕ, zero, suc, ◌-◌, ◌+◌, ◌%◌, ◌^◌, Bool, true, false, List, [], ◌∷◌, ◌++◌, ◌==◌, if◌then◌else◌,
}
use btree_profiling.Memory.{Addr, null, Words, Cmd, pure, ◌>>=◌, ◌>>◌, ptr, get_head, release}
use btree_profiling.Node.{Geo, cache_start, bkey, bval}
use btree_profiling.Cache.{free_queue}
use btree_profiling.Tree.{read_node, cbtree_clear_head}

pub record Visit : Type 0 where
  pub elem : ℕ
  pub key : Words
  pub index : ℕ

-- `if (reap) { freeQueue(...); mempool_free(node, ...); }`
unfoldable pub reap_node : ℕ → Geo → Bool → Addr → Cmd (Unit {0})
unfolding free_queue
reap_node fuel geo reap node =
    if reap
    then (do free_queue fuel (cache_start geo) (ptr node (cache_start geo)); release node)
    else pure tt

module _ (fuel : ℕ) (geo : Geo) (reap : Bool) where
  -- The slots of `node` from `i` on, `r` of them.
  pub for_each_slots : ℕ → ℕ → Addr → ℕ → ℕ → Cmd (ℕ × List Visit)
  unfolding reap_node
  for_each_slots depth zero node i count = pure (count, [])
  for_each_slots zero (suc r) node i count = do
    w ← read_node geo node
    if bval geo w i == null then pure (count, []) else do
      let call : Visit = record { elem = bval geo w i; key = bkey geo w i; index = count }
      (count', calls) ← for_each_slots zero r node (suc i) (count + 1)
      pure (count', call ∷ calls)
  for_each_slots (suc depth) (suc r) node i count = do
    w ← read_node geo node
    if bval geo w i == null then pure (count, []) else do
      (count', below) ← for_each_slots depth geo.no_pairs (bval geo w i) 0 count
      reap_node fuel geo reap (bval geo w i)
      (count'', calls) ← for_each_slots (suc depth) r node (suc i) count'
      pure (count'', below ++ calls)

  unfoldable pub cbtree_for_each : ℕ → Addr → ℕ → Cmd (ℕ × List Visit)
  unfolding for_each_slots
  cbtree_for_each height node count = do
    (count', calls) ← for_each_slots (height - 1) geo.no_pairs node 0 count
    reap_node fuel geo reap node
    pure (count', calls)

-- `some_func` is false for a `func2` that is `NULL`: then the empty function is called.
unfoldable pub cbtree_visitor : ℕ → Geo → Bool → Cmd (ℕ × List Visit)
unfolding cbtree_for_each
cbtree_visitor fuel geo some_func = do
  h ← get_head
  if h.node == null then pure (0, []) else do
    (count, calls) ← cbtree_for_each fuel geo false h.height h.node 0
    pure (count, if some_func then calls else [])

unfoldable pub cbtree_grim_visitor : ℕ → Geo → Bool → Cmd (ℕ × List Visit)
unfolding cbtree_for_each
cbtree_grim_visitor fuel geo some_func = do
  h ← get_head
  (count, calls) ←
      if h.node == null then pure (0, []) else cbtree_for_each fuel geo true h.height h.node 0
  cbtree_clear_head
  pure (count, if some_func then calls else [])

-- The functions between the visitors and the caller's function `func`, for a little-endian machine.
module _ {A : Type 0} where
  pub cvisitorl : (ℕ → ℕ → ℕ → ℕ → A) → ℕ → ℕ → Words → ℕ → A
  cvisitorl func elem opaque key index = func elem opaque (key 0) index

  pub cvisitor32 : (ℕ → ℕ → ℕ → ℕ → A) → ℕ → ℕ → Words → ℕ → A
  cvisitor32 func elem opaque key index = func elem opaque (key 0 % 2 ^ 32) index

  pub cvisitor64 : (ℕ → ℕ → ℕ → ℕ → A) → ℕ → ℕ → Words → ℕ → A
  cvisitor64 func elem opaque key index = func elem opaque (key 0) index

  pub cvisitor128 : (ℕ → ℕ → ℕ → ℕ → ℕ → A) → ℕ → ℕ → Words → ℕ → A
  cvisitor128 func elem opaque key index = func elem opaque (key 0) (key 1) index
