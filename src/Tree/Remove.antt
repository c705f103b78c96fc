-- ===== src/Tree/Remove.antt =====
-- `cbtree_remove` of cbtree_base.c. The fuel bounds the calls that `cbtree_remove_level`, `rebalance`
-- and `merge` make of one another up the tree, and the loops of `freeQueue`.
pub mod Find
pub mod Leaf
pub mod Room
pub mod Prev
use btree_profiling.Common.{
  ℕ, zero, suc, ◌+◌, ◌-◌, ◌/◌, Bool, true, false, not, ◌&&◌, ◌==◌, leb, ltb, if◌then◌else◌,
}
use btree_profiling.Memory.{
  Addr, null, Cmd, pure, ◌>>=◌, ◌>>◌, starving, faulting, Ptr, ptr, load, store, release, get_head,
  set_head, bug_on,
}
use btree_profiling.Node.{
  Geo, cache_start, bval, setval, getpos, getfill, key_eq, remove_pair, append_pairs,
}
use btree_profiling.Cache.{free_queue, count_at, deleted_at}
use btree_profiling.Tree.{read_node, write_node, read_key, key_slot, find_level, cbtree_shrink}

-- After a node left the tree its cache is freed; a node that caches still name is marked as deleted,
-- and `freed` is given back if none names it.
unfoldable pub retire : ℕ → Geo → Addr → Addr → Cmd (Unit {0})
unfolding free_queue
retire fuel geo node freed = do
  free_queue fuel (cache_start geo) (ptr node (cache_start geo))
  count ← load node (count_at (cache_start geo))
  if count == 0 then release freed else store node (deleted_at (cache_start geo)) 1

unfoldable mutual
  unfolding retire

  pub cbtree_remove_level : ℕ → Geo → Ptr → ℕ → Cmd ℕ
  cbtree_remove_level zero geo key level = starving
  cbtree_remove_level (suc f) geo key level = do
    h ← get_head
    if ltb h.height level
        then (do set_head (record h { height = 0; node = null }); pure null)
        else (do
          node ← find_level geo key level
          w ← read_node geo node
          k ← read_key geo key
          let pos = getpos geo w k
          let fill = getfill geo w pos
          if (level == 1) && not (key_eq geo w pos k)
              then pure null
              else if fill == 0
              then faulting
              else (do
                write_node node (remove_pair geo w pos fill)
                if ltb (fill - 1) (geo.no_pairs / 2)
                    then if ltb level h.height
                      then rebalance f geo key level node (fill - 1)
                      else if fill - 1 == 1
                      then cbtree_shrink f geo
                      else pure tt
                    else pure tt
                pure (bval geo w pos)))

  pub rebalance : ℕ → Geo → Ptr → ℕ → Addr → ℕ → Cmd (Unit {0})
  rebalance zero geo key level child fill = starving
  rebalance (suc f) geo key level child fill =
      if fill == 0
      then (do cbtree_remove_level f geo key (level + 1); retire f geo child null)
      else (do
        parent ← find_level geo key (level + 1)
        w ← read_node geo parent
        k ← read_key geo key
        let i = getpos geo w k
        bug_on (not (bval geo w i == child))
        merged ←
            if ltb 0 i
            then (do
              let left = bval geo w (i - 1)
              lw ← read_node geo left
              let no_left = getfill geo lw 0
              if leb (fill + no_left) geo.no_pairs
                  then (do merge f geo level left no_left child fill parent (i - 1); pure true)
                  else pure false)
            else pure false
        if merged
            then pure tt
            else if ltb (i + 1) (getfill geo w i)
            then (do
              let right = bval geo w (i + 1)
              rw_ ← read_node geo right
              let no_right = getfill geo rw_ 0
              if leb (fill + no_right) geo.no_pairs
                  then merge f geo level child fill right no_right parent i
                  else pure tt)
            else pure tt)

  pub merge : ℕ → Geo → ℕ → Addr → ℕ → Addr → ℕ → Addr → ℕ → Cmd (Unit {0})
  merge zero geo level left lfill right rfill parent lpos = starving
  merge (suc f) geo level left lfill right rfill parent lpos = do
    lw ← read_node geo left
    rw_ ← read_node geo right
    write_node left (append_pairs geo lw lfill rw_ 0 rfill)
    pw ← read_node geo parent
    write_node parent (setval geo (setval geo pw lpos right) (lpos + 1) left)
    cbtree_remove_level f geo (key_slot geo parent lpos) (level + 1)
    retire f geo right right

unfoldable pub cbtree_remove : ℕ → Geo → Ptr → Cmd ℕ
unfolding cbtree_remove_level
cbtree_remove fuel geo key = do
  h ← get_head
  if h.height == 0 then pure null else cbtree_remove_level fuel geo key 1
