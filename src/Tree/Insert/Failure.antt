-- ===== src/Tree/Insert/Failure.antt =====
-- `cbtree_insert` of cbtree_base.c when the memory pool has no node left.
use btree_profiling.Common.{ℕ, suc, ◌≡◌, ◌≢◌, false, arith, ltb, ◌&&◌}
use btree_profiling.Memory.{null, State, ok, Env, Ptr, get_head, bug_on, mempool_alloc, place}
use btree_profiling.Words.Order.{value}
use btree_profiling.Entries.{has_key}
use btree_profiling.Node.{Geo, getpos, key_eq}
use btree_profiling.Node.Slots.{IsGeo, entries}
use btree_profiling.Node.Search.{getpos-le-fill, getfill-fill, key_eq_absent}
use btree_profiling.Tree.{enomem, find_level, find_loop, cbtree_grow, cbtree_node_alloc}
use btree_profiling.Tree.Shape.{read_node-Holds}
use btree_profiling.Tree.Lookup.Leaf.{IsLeaf}
use btree_profiling.Tree.Insert.{cbtree_insert, cbtree_insert_level}
use btree_profiling.Tree.Insert.Walk.{HoldsKey, key_at, read_key-HoldsKey}

node_alloc_null :
    (env : Env) (geo : Geo) (s : State)
    → env.mempool_alloc s ≡ null
    → cbtree_node_alloc env geo s ≡ ok null s
unfolding cbtree_node_alloc mempool_alloc place
node_alloc_null env geo s e = ground (arith, e)

-- In an empty tree `cbtree_insert` of a value that is not `NULL` returns `ENOMEM` and changes
-- nothing when the memory pool has no node left. There is one unit of fuel.
pub cbtree_insert-empty_enomem :
    (f : ℕ) (env : Env) (geo : Geo) (p : Ptr) (v : ℕ) (s : State)
    → s.head.height ≡ 0
    → env.mempool_alloc s ≡ null
    → v ≢ null
    → cbtree_insert (suc f) env geo p v s ≡ ok enomem s
unfolding cbtree_insert cbtree_insert_level get_head bug_on cbtree_grow
cbtree_insert-empty_enomem f env geo p v s height e ne =
    ground (arith, height, node_alloc_null env geo s e)

module _ {geo : Geo} (g : IsGeo geo) {s : State} {p : Ptr} (t : IsLeaf geo s geo.no_pairs)
    (hk : HoldsKey geo s p) where
  new_key :
      has_key (value (key_at s p) geo.keylen) (entries geo (s.word s.head.node) geo.no_pairs)
        ≡ false
      → (ltb (getpos geo (s.word s.head.node) (key_at s p)) geo.no_pairs
          && key_eq geo
              (s.word s.head.node)
              (getpos geo (s.word s.head.node) (key_at s p))
              (key_at s p))
        ≡ false
  new_key absent =
      let w = s.word s.head.node in
      let same = key_eq_absent geo g w geo.no_pairs t.root.node (key_at s p) hk.words absent in
      ground (arith, same)

  -- In a tree of a single full leaf `cbtree_insert` of a new key returns `ENOMEM` and changes
  -- nothing when the memory pool has no node left. The geometry's keys fill their words, the key
  -- can be read, the value is not `NULL`, and there are two units of fuel.
  pub cbtree_insert-full_enomem :
      (f : ℕ) (env : Env) (v : ℕ)
      → has_key (value (key_at s p) geo.keylen) (entries geo (s.word s.head.node) geo.no_pairs)
        ≡ false
      → env.mempool_alloc s ≡ null
      → v ≢ null
      → cbtree_insert (suc (suc f)) env geo p v s ≡ ok enomem s
  unfolding cbtree_insert cbtree_insert_level find_level find_loop get_head bug_on
  cbtree_insert-full_enomem f env v absent e ne =
      let w = s.word s.head.node in
      let pos = getpos geo w (key_at s p) in
      ground (
        arith,
        t.height,
        t.root.ne_null,
        read_node-Holds t.root,
        read_key-HoldsKey hk,
        new_key absent,
        getfill-fill geo g w geo.no_pairs t.root.node pos
            (getpos-le-fill geo g w geo.no_pairs t.root.node (key_at s p) hk.words),
        node_alloc_null env geo s e,
      )
