-- ===== src/Lib.antt =====
-- A model of the cached B+ tree of this repository and what makes it correct.
--
-- The program is a B+ tree of the kernel whose nodes carry a small cache of leaves. A node is an array
-- of longs: the keys, then a value for each key, then words for the cache. Keys fall from slot to slot,
-- and a slot of an inner node holds a key that no key of its child is below. A lookup asks the cache of an inner
-- node for a leaf before it goes down, and fills it on the way back; removal frees the caches of the
-- nodes that it takes out.
--
-- Memory models blocks of longs at addresses. A function of the source is a command, from a state to a
-- result and a state, where a failed BUG_ON, an access outside a live block and a lack of fuel have
-- results of their own. `State.head` is the `struct cbtree_head` that a function was handed. The
-- allocators of the kernel are the parameter `Env`; all that a theorem assumes of one is that it answers
-- `NULL` in a state, or a free address in each of a number of states, where it says so.
-- Common passes on the libraries' names and has the tests on numbers and the lists that others use.
--
-- Which module models which part:
--   Words: longcmp, longcpy, longset, dec_key and keyzero of cbtree_base.c. A long is a number below
--     2 ^ 64; dec_key writes its wrap-around out.
--   Node: struct cbtree_geo, the three geometries, bkey to clearpair, keycmp, getpos and getfill of
--     cbtree_base.c, and the loops over the slots of a node that cbtree_insert_level,
--     cbtree_remove_level and merge hold (insert_pair, remove_pair, split, append_pairs).
--   Cache: cbtree_cache.c, with `find_node` for findNode, `free_queue` for freeQueue, `init_queue` for
--     initQueue and `get_node_value` for getNodeValue.
--   Tree: the functions of cbtree_base.c that are shared, cbtree_node_alloc to cbtree_last, find_level,
--     cbtree_grow and cbtree_shrink; `cbtree_clear_head` is __cbtree_init.
--   Tree.Lookup, Tree.Prev, Tree.Insert, Tree.Remove, Tree.Merge, Tree.Visit: the operations of the same
--     names. In Tree.Merge the other tree's head is an argument and a result; in Tree.Visit the calls of
--     the caller's function are collected in a list.
--   Entries: the abstract view, a list of keys and values, the largest key first, with place, insert,
--     erase and lookup. Node.Slots reads the entries of a node, Tree.Shape those of a tree.
--   Tree.Prev.Walk, Tree.Prev.Climb, Tree.Prev.Before, Tree.Prev.Wrap: the walks of cbtree_get_prev and its
--     retries, on trees whose parent keys bound each other (`ParentKeys`), and the parent key 0.
--   Typed.ForEach.Entries, Typed.ForEach.Circle: the visits of a whole tree, and one that does not end.
--   Tree.Insert.Empty, Tree.Insert.Room, Tree.Insert.Split: insertion into an empty tree, into a leaf with
--     room, and into a full leaf. Tree.Roundtrip: operations after one another.
--   Tree.Remove.Find, Tree.Remove.Room: removal from a leaf that need not be merged. Tree.Remove.Prev,
--     Tree.Insert.Prev: a step back after a removal or an insertion, on the parent keys that either keeps
--     (Tree.Prev.Leaves, Tree.Insert.Walk after Tree.Insert.Step). Tree.Visit.Insert,
--     Tree.Visit.Remove: an insertion and a removal between two visits. Tree.Visit.Grim: the visitor that
--     frees the tree.
--   Tree.Slab: cbtree_alloc and cbtree_free. Tree.Lookup.Again: two lookups in a tree whose root has a
--     cache; Cache.Refill is what they do to that cache.
--   Cache.Init: what initQueue makes when memory suffices; Tree.Alloc: the same of cbtree_node_alloc.
--   Typed: the wrappers of cbtree-type.h and cbtree-128.h, and in Typed.ForEach the visiting macros of
--     cbtree_base.h. Typed.Full has the functions for keys as wide as a long, Typed.Narrow those for
--     narrower keys, Typed.Wide those of 128 bits, with longs of 64 bits. A variable of the stack is a
--     block that lives while the call runs, at an address that the parameter `stack` says.
--   Monitor: ds_monitoring.c. The xarray of the kernel is the parameter `XArray`, with laws of loading
--     and storing and the order in which its indices are visited; an access that C leaves undefined
--     is `none`, and the lines printed are a result.
--   Clock: separate_num of calclock.c, which puts commas into a number's digits. Clock.Timing: the clocks
--     of calclock.h, one for each processor, with `add_interval` for __ktput and `print_clock` for
--     __ktprint, whose line is a result. The kernel's operations on times are the parameter `Ktime`.
--   Driver: btree_profiling.c. What it uses of the kernel is the parameter `Kernel`, with the laws that
--     the raw clock does not go back and that its readings are times; `TREE_SIZE` is an argument.
--     Driver.Rounds: what a number of rounds of find_tree draws, reads and looks up.
--   Sums: sums over lists, and how often something is in a list.
--   Tests: the test data and one concrete input for each theorem.
--
-- Bounds. Loops over slots and levels recur on the rounds left, so they need no fuel. Fuel bounds the
-- calls that cbtree_insert_level and its `retry` make of one another, those among cbtree_remove_level,
-- rebalance and merge, the walks of cbtree_get_prev, the entries that cbtree_merge moves, and the
-- ring of freeQueue; a theorem on them says how much is enough. `NODESIZE` and the size of a long are
-- arguments of the geometries.
--
-- Not modelled: the allocators of the kernel, which are parameters; the text that is printed. The
-- additions of the monitor are atomic in the source and single steps here, so that visits that run
-- at the same time are visits in some order; two first visits of one index at the same time are not
-- modelled.
pub mod Common
pub mod Memory
pub mod Words
pub mod Entries
pub mod Node
pub mod Cache
pub mod Tree
pub mod Clock
pub mod Typed
pub mod Monitor
pub mod Sums
pub mod Driver
mod Tests
