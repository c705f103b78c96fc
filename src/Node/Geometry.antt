-- ===== src/Node/Geometry.antt =====
-- The geometries of cbtree_base.c: where keys, values and the words of the cache fall in a node.
use btree_profiling.Common.{ℕ, ◌+◌, ◌*◌, ◌/◌, ◌≤◌, ◌≡◌, ◌⊎◌, inl, inr, arith}
use btree_profiling.Cache.{deleted_at}
use btree_profiling.Node.{Geo, cache_start, cbtree_geo32, cbtree_geo64, cbtree_geo128}
use btree_profiling.Node.Slots.{IsGeo}

-- Keys and values fit in a node of `words` longs.
abbrev Fits : Geo → ℕ → Type 0
Fits geo words = geo.no_longs + geo.no_pairs ≤ words

-- On machines with longs of four or eight bytes the keys of each geometry fill its `no_longs`
-- words, and keys and values fit in a node.
pub geometry-Fits :
    (nodesize sizeof_long : ℕ)
    → (sizeof_long ≡ 4) ⊎ (sizeof_long ≡ 8)
    → (IsGeo (cbtree_geo32 nodesize sizeof_long)
        × Fits (cbtree_geo32 nodesize sizeof_long) (nodesize / sizeof_long))
      × (IsGeo (cbtree_geo64 nodesize sizeof_long)
          × Fits (cbtree_geo64 nodesize sizeof_long) (nodesize / sizeof_long))
      × (IsGeo (cbtree_geo128 nodesize sizeof_long)
          × Fits (cbtree_geo128 nodesize sizeof_long) (nodesize / sizeof_long))
unfolding cbtree_geo32 cbtree_geo64 cbtree_geo128
geometry-Fits n b (inl e) = rw e (omega arith)
geometry-Fits n b (inr e) = rw e (omega arith)

-- On a machine with longs of eight bytes, in a node of at least 128 bytes and a multiple of 16,
-- the word that the cache takes as the mark of a deleted node is the first one past the node for
-- `cbtree_geo32`, and already the word of the queue is past it for `cbtree_geo128`.
pub cache_outside_node :
    (m : ℕ)
    → 8 ≤ m
    → (deleted_at (cache_start (cbtree_geo32 (16 * m) 8)) ≡ 16 * m / 8)
      × (16 * m / 8 ≤ cache_start (cbtree_geo128 (16 * m) 8))
unfolding cbtree_geo32 cbtree_geo128
cache_outside_node m h = omega arith
