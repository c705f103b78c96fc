-- ===== src/Tree/Insert.antt =====
-- `cbtree_insert` of cbtree_base.c. The fuel bounds the levels and the retries: each call takes one
-- unit, and each round of `retry`.
pub mod Pick
pub mod Step
pub mod Walk
pub mod Room
pub mod Prev
pub mod Empty
pub mod Split
pub mod Failure
use btree_profiling.Common.{
  ℕ, zero, suc, ◌+◌, ◌-◌, ◌/◌, Ordering, Bool, true, false, ◌&&◌, ◌==◌, leb, ltb, if◌then◌else◌,
}
use btree_profiling.Memory.{
  Addr, null, Words, Cmd, pure, ◌>>=◌, ◌>>◌, starving, faulting, Env, Ptr, get_head, release,
  bug_on,
}
use btree_profiling.Node.{Geo, getpos, getfill, key_eq, insert_pair, split}
use btree_profiling.Tree.{
  Status, success, enomem, enoent, read_node, write_node, read_key, key_slot, cbtree_node_alloc,
  cbtree_grow, find_level,
}

-- shift and insert
unfoldable pub insert_here : Geo → Addr → Words → ℕ → ℕ → Ptr → ℕ → Cmd Status
insert_here geo node w pos fill key val = do
  k ← read_key geo key
  write_node node (insert_pair geo w pos fill k val)
  pure success

-- Half of the pairs of `node` to `new`, whose parent knows it already.
unfoldable pub split_node : Geo → Addr → Addr → ℕ → Cmd (Unit {0})
split_node geo new node fill = do
  n ← read_node geo new
  w ← read_node geo node
  write_node new (split geo n w fill).0
  write_node node (split geo n w fill).1

unfoldable mutual
  unfolding insert_here split_node key_slot

  pub cbtree_insert_level : ℕ → Env → Geo → Ptr → ℕ → ℕ → Cmd Status
  cbtree_insert_level zero env geo key val level = starving
  cbtree_insert_level (suc f) env geo key val level = do
    bug_on (val == null)
    h ← get_head
    grown ← if ltb h.height level then cbtree_grow env geo else pure success
    elim grown [ success ↦ insert_retry f env geo key val level | err ↦ pure err ]

  -- from the label `retry` on
  pub insert_retry : ℕ → Env → Geo → Ptr → ℕ → ℕ → Cmd Status
  insert_retry zero env geo key val level = starving
  insert_retry (suc f) env geo key val level = do
    node ← find_level geo key level
    w ← read_node geo node
    k ← read_key geo key
    let pos = getpos geo w k
    let fill = getfill geo w pos
    bug_on (ltb pos fill && key_eq geo w pos k)
    if fill == geo.no_pairs
        then (do
          new ← cbtree_node_alloc env geo
          if new == null then pure enomem else do
            err ←
                if ltb fill 2
                then faulting
                else cbtree_insert_level f env geo (key_slot geo node (fill / 2 - 1)) new
                    (level + 1)
            elim err [
              | success ↦ do split_node geo new node fill; insert_retry f env geo key val level
              | e ↦ do release new; pure e
            ])
        else (do bug_on (leb geo.no_pairs fill); insert_here geo node w pos fill key val)

unfoldable pub cbtree_insert : ℕ → Env → Geo → Ptr → ℕ → Cmd Status
unfolding cbtree_insert_level
cbtree_insert fuel env geo key val = do
  bug_on (val == null)
  cbtree_insert_level fuel env geo key val 1
