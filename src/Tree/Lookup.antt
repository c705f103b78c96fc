-- ===== src/Tree/Lookup.antt =====
-- `cbtree_lookup` and `cbtree_update` of cbtree_base.c.
pub mod Leaf
pub mod Again
pub mod Update
use btree_profiling.Common.{ℕ, zero, suc, ◌-◌, ◌==◌, if◌then◌else◌, ltb}
use btree_profiling.Memory.{Addr, null, Words, Cmd, pure, ◌>>=◌, ◌>>◌, Ptr, ptr, get_head}
use btree_profiling.Node.{Geo, cache_start, bval, setval, getpos, findkey}
use btree_profiling.Cache.{find_node, setcache}
use btree_profiling.Tree.{Status, success, enoent, read_node, write_node, read_key}

-- The scan of a leaf: the leaf itself if it holds the key.
unfoldable pub scan_leaf : Geo → Addr → Ptr → Cmd Addr
scan_leaf geo node key = do
  w ← read_node geo node
  k ← read_key geo key
  pure (if ltb (findkey geo w k) geo.no_pairs then node else null)

-- The child on the way to the key, or `NULL`.
unfoldable pub next_child : Geo → Addr → Ptr → Cmd Addr
next_child geo node key = do
  w ← read_node geo node
  k ← read_key geo key
  pure (if getpos geo w k == geo.no_pairs then null else bval geo w (getpos geo w k))

-- `height` levels of tree below `node`. The leaf that is found is put into the node's cache.
unfoldable pub cbtree_lookup_node : ℕ → Geo → ℕ → Addr → Ptr → Cmd Addr
unfolding scan_leaf next_child
cbtree_lookup_node fuel geo zero node key = pure null
cbtree_lookup_node fuel geo (suc zero) node key = scan_leaf geo node key
cbtree_lookup_node fuel geo (suc (suc h)) node key = do
  hit ← find_node (ptr node (cache_start geo)) key (cache_start geo)
  if hit == null
      then (do
        child ← next_child geo node key
        if child == null then pure null else do
          leaf ← cbtree_lookup_node fuel geo (suc h) child key
          if leaf == null
              then pure null
              else (do setcache fuel leaf node key (cache_start geo) geo.keylen; pure leaf))
      else pure hit

unfoldable pub cbtree_lookup : ℕ → Geo → Ptr → Cmd Addr
unfolding cbtree_lookup_node
cbtree_lookup fuel geo key = do h ← get_head; cbtree_lookup_node fuel geo h.height h.node key

unfoldable pub cbtree_update : ℕ → Geo → Ptr → ℕ → Cmd Status
unfolding cbtree_lookup_node
cbtree_update fuel geo key val = do
  h ← get_head
  node ← cbtree_lookup_node fuel geo h.height h.node key
  if node == null then pure enoent else do
    w ← read_node geo node
    k ← read_key geo key
    if ltb (findkey geo w k) geo.no_pairs
        then (do write_node node (setval geo w (findkey geo w k) val); pure success)
        else pure enoent
