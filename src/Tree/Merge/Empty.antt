-- ===== src/Tree/Merge/Empty.antt =====
-- `cbtree_merge` of cbtree_base.c into an empty tree.
use btree_profiling.Common.{ℕ, ◌≡◌, ◌≢◌, refl, List, [], arith}
use btree_profiling.Memory.{Addr, null, Head, State, ok, Env, get_head, set_head, bug_on}
use btree_profiling.Node.{Geo}
use btree_profiling.Tree.{success, cbtree_clear_head}
use btree_profiling.Tree.Shape.{IsCbtree, IsTree-frame}
use btree_profiling.Tree.Insert.Room.{SameOutside}
use btree_profiling.Tree.Merge.{cbtree_merge, on_tree}

-- `cbtree_merge` of another tree into an empty one succeeds: the target has the other tree's
-- entries in the same nodes and keeps its memory pool, the other head is empty, and no block
-- changes.
pub cbtree_merge-empty :
    {geo : Geo} {d : ℕ} {es : List (ℕ × ℕ)} {fp : List Addr} (s : State) (victim : Head) (env : Env)
    (key_buf dup_buf : Addr) (fuel : ℕ) (target victim_at : Addr)
    → target ≢ victim_at
    → s.head.node ≡ null
    → IsCbtree geo (record s { head = victim }) d es fp
    → (s' : State) × (cbtree_merge env geo key_buf dup_buf fuel target victim_at victim s
        ≡ ok (success, record victim { node = null; height = 0 }) s')
      × IsCbtree geo s' d es fp
      × SameOutside [] s s'
      × (s'.head.mempool ≡ s.head.mempool)
unfolding cbtree_merge on_tree cbtree_clear_head get_head set_head bug_on
cbtree_merge-empty {geo} s victim env key_buf dup_buf fuel target victim_at ne empty t = (
  record s { head = record s.head { node = victim.node; height = victim.height } },
  ground (arith, empty),
  record {
    height = t.height;
    tree = IsTree-frame t.tree (record { words = λ a h. refl; sizes = λ a h. refl });
  },
  record { words = λ a o. refl; sizes = λ a. refl },
  refl,
)
