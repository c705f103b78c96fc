-- ===== src/Tree/Lookup/Leaf.antt =====
-- `cbtree_lookup` and `cbtree_update` of cbtree_base.c on a tree of one leaf, where no cache is asked.
use btree_profiling.Common.{ℕ, ◌<◌, ◌≡◌, ◌≢◌, arith, if◌then◌else◌}
use btree_profiling.Memory.{null, State, ok, Ptr, get_head}
use btree_profiling.Words.Order.{value}
use btree_profiling.Entries.{has_key}
use btree_profiling.Node.{Geo}
use btree_profiling.Node.Slots.{IsGeo, entries}
use btree_profiling.Node.Search.{findkey-has_key, findkey-zero}
use btree_profiling.Tree.Shape.{Holds, read_node-Holds}
use btree_profiling.Tree.Insert.Walk.{HoldsKey, key_at, read_key-HoldsKey}
use btree_profiling.Tree.Lookup.{cbtree_lookup, cbtree_lookup_node, scan_leaf}

-- The tree of the head is one leaf.
pub record IsLeaf (geo : Geo) (s : State) (fill : ℕ) : Type 0 where
  pub height : s.head.height ≡ 1
  pub root : Holds geo s s.head.node fill

module _ {geo : Geo} (g : IsGeo geo) {s : State} {p : Ptr} {fill : ℕ} (t : IsLeaf geo s fill)
    (hk : HoldsKey geo s p) where
  -- Of a key other than 0, which can be read, `cbtree_lookup` in a tree of a single leaf returns
  -- the leaf if the key is among its entries and `NULL` if not, and changes nothing.
  pub cbtree_lookup-leaf :
      (fuel : ℕ)
      → value (key_at s p) geo.keylen ≢ 0
      → cbtree_lookup fuel geo p s
        ≡ ok
            (if has_key (value (key_at s p) geo.keylen) (entries geo (s.word s.head.node) fill)
              then s.head.node
              else null)
            s
  unfolding cbtree_lookup cbtree_lookup_node scan_leaf get_head
  cbtree_lookup-leaf fuel ne = ground (
    arith,
    t.height,
    read_node-Holds t.root,
    read_key-HoldsKey hk,
    findkey-has_key geo g (s.word s.head.node) fill t.root.node (key_at s p) hk.words ne,
  )

  -- In a tree of a single leaf that is not full, `cbtree_lookup` of the key 0 returns the leaf,
  -- whatever its entries are.
  pub cbtree_lookup-zero :
      (fuel : ℕ)
      → value (key_at s p) geo.keylen ≡ 0
      → fill < geo.no_pairs
      → cbtree_lookup fuel geo p s ≡ ok s.head.node s
  unfolding cbtree_lookup cbtree_lookup_node scan_leaf get_head
  cbtree_lookup-zero fuel e room = ground (
    arith,
    t.height,
    read_node-Holds t.root,
    read_key-HoldsKey hk,
    findkey-zero geo g (s.word s.head.node) fill t.root.node (key_at s p) hk.words e room,
  )
