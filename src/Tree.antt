-- ===== src/Tree.antt =====
-- The B+ tree of cbtree_base.c, its head and the steps that its operations share. The head is the one
-- of the state; a node is read as a whole, so an access that leaves its keys and values is a fault.
pub mod Shape
pub mod Alloc
pub mod Last
pub mod Roundtrip
pub mod Slab
pub mod Lookup
pub mod Prev
pub mod Insert
pub mod Remove
pub mod Merge
pub mod Visit
use btree_profiling.Common.{
  ℕ, zero, suc, ◌+◌, ◌-◌, ◌*◌, Bool, true, false, not, ◌&&◌, ◌||◌, leb, ltb, ◌==◌, if◌then◌else◌,
  Option, none, some,
}
use btree_profiling.Memory.{
  Addr, null, Words, Head, State, Run, ok, Cmd, pure, ◌>>=◌, ◌>>◌, faulting, bug, fault, release,
  Env, mempool_alloc, Ptr, ptr, set_words, get_head, set_head, bug_on, read_words,
}
use btree_profiling.Words.{longcpy, longset}
use btree_profiling.Node.{Geo, cache_start, bkey, bval, setkey, setval, getpos, getfill}
use btree_profiling.Cache.{init_queue, free_queue}

-- What the functions that return an `int` return.
pub data Status : Type 0 where
  success enomem enoent : Status

-- The keys and values of a node.
unfoldable pub read_node : Geo → Addr → Cmd Words
read_node geo a s =
    if not (a == null) && leb (geo.no_longs + geo.no_pairs) (s.size a)
    then ok (s.word a) s
    else fault

unfoldable pub write_node : Addr → Words → Cmd (Unit {0})
unfolding set_words
write_node a w s = ok tt (set_words s a w)

-- All words of a block.
unfoldable pub block_words : Addr → Cmd Words
block_words a s = ok (s.word a) s

-- The key at a pointer.
unfoldable pub read_key : Geo → Ptr → Cmd Words
unfolding read_words
read_key geo p = read_words geo.keylen p

-- A pointer to the key in a slot of a node.
unfoldable pub key_slot : Geo → Addr → ℕ → Ptr
key_slot geo a n = ptr a (n * geo.keylen)

unfoldable pub cbtree_node_alloc : Env → Geo → Cmd Addr
unfolding write_node longset block_words
cbtree_node_alloc env geo = do
  node ← mempool_alloc env
  if node == null then pure node else do
    w ← block_words node
    write_node node (longset w 0 0 env.node_words)
    init_queue env (ptr node (cache_start geo))
    pure node

-- `__cbtree_init`
unfoldable pub cbtree_clear_head : Cmd (Unit {0})
cbtree_clear_head = do h ← get_head; set_head (record h { node = null; height = 0 })

unfoldable pub cbtree_init_mempool : Addr → Cmd (Unit {0})
unfolding cbtree_clear_head
cbtree_init_mempool mempool = do
  cbtree_clear_head
  h ← get_head
  set_head (record h { mempool = mempool })

unfoldable pub cbtree_init : Env → Cmd Status
unfolding cbtree_clear_head
cbtree_init env = do
  cbtree_clear_head
  pool ← λ s. ok (env.mempool_create s) s
  h ← get_head
  set_head (record h { mempool = pool })
  pure (if pool == null then enomem else success)

-- `mempool_destroy` gives back the pool.
unfoldable pub cbtree_destroy : Cmd (Unit {0})
cbtree_destroy = do h ← get_head; release h.node; set_head (record h { mempool = null })

-- The walk to the last leaf, with the levels left to go down.
unfoldable pub last_leaf : Geo → ℕ → Addr → Cmd Addr
last_leaf geo zero node = pure node
last_leaf geo (suc h) node = do w ← read_node geo node; last_leaf geo h (bval geo w 0)

-- The value of the last entry and its key; `none` on an empty tree.
unfoldable pub cbtree_last : Geo → Cmd (Option (ℕ × Words))
unfolding last_leaf
cbtree_last geo = do
  h ← get_head
  if h.height == 0 then pure none else do
    leaf ← last_leaf geo (h.height - 1) h.node
    w ← read_node geo leaf
    pure (some (bval geo w 0, bkey geo w 0))

-- One level of `find_level`: the slot of the child on the way to the key. A key that is too large for
-- the node replaces the key of the last used slot.
unfoldable pub descend : Geo → Addr → Ptr → Cmd Addr
unfolding read_node write_node read_key
descend geo node key = do
  w ← read_node geo node
  k ← read_key geo key
  let i = getpos geo w k
  if (i == geo.no_pairs) || (bval geo w i == null)
      then if i == 0 then faulting else (do
        write_node node (setkey geo w (i - 1) k)
        pure (bval geo (setkey geo w (i - 1) k) (i - 1)))
      else pure (bval geo w i)

-- `for (height = head->height; height > level; height--)`
pub find_loop : Geo → ℕ → Addr → Ptr → Cmd Addr
unfolding descend
find_loop geo zero node key = pure node
find_loop geo (suc h) node key = do child ← descend geo node key; find_loop geo h child key

unfoldable pub find_level : Geo → Ptr → ℕ → Cmd Addr
unfolding find_loop bug_on
find_level geo key level = do
  h ← get_head
  node ← find_loop geo (h.height - level) h.node key
  bug_on (node == null)
  pure node

-- A root over the old one, with the old root's last key.
unfoldable pub adopt_root : Geo → Addr → Addr → Cmd (Unit {0})
unfolding read_node write_node
adopt_root geo node old = if old == null then pure tt else do
  w ← read_node geo old
  let fill = getfill geo w 0
  n ← read_node geo node
  if fill == 0
      then faulting
      else write_node node (setval geo (setkey geo n 0 (bkey geo w (fill - 1))) 0 old)

unfoldable pub cbtree_grow : Env → Geo → Cmd Status
unfolding cbtree_node_alloc adopt_root
cbtree_grow env geo = do
  node ← cbtree_node_alloc env geo
  if node == null then pure enomem else do
    h ← get_head
    adopt_root geo node h.node
    set_head (record h { node = node; height = h.height + 1 })
    pure success

unfoldable pub cbtree_shrink : ℕ → Geo → Cmd (Unit {0})
unfolding read_node
cbtree_shrink fuel geo = do
  h ← get_head
  if leb h.height 1 then pure tt else do
    w ← read_node geo h.node
    bug_on (ltb 1 (getfill geo w 0))
    set_head (record h { node = bval geo w 0; height = h.height - 1 })
    free_queue fuel (cache_start geo) (ptr h.node (cache_start geo))
    release h.node
