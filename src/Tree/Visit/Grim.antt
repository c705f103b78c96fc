-- ===== src/Tree/Visit/Grim.antt =====
-- `cbtree_grim_visitor` of cbtree_base.c on a tree whose caches have not been filled.
use btree_profiling.Common.{ℕ, zero, suc, ◌≡◌, ap, Bool, true, ◌<◌, List, arith}
use btree_profiling.Memory.{Addr, State, ok, fault, ptr, get_head}
use btree_profiling.Node.{Geo, bval, cache_start}
use btree_profiling.Node.Slots.{pair}
use btree_profiling.Cache.Init.Ring.{Ring}
use btree_profiling.Cache.Free.{free_queue-null}
use btree_profiling.Tree.Shape.{
  root_inside, has, has-append, Holds, IsCbtree, IsTree, IsTree-Holds, inner, nil, cons,
  read_node-Holds,
}
use btree_profiling.Tree.Visit.{
  Visit, for_each_slots, cbtree_for_each, cbtree_grim_visitor, reap_node,
}
use btree_profiling.Tree.Visit.Order.{leaf_slots-Visits}

-- Every node has a cache with no nodes, as `cbtree_node_alloc` makes it.
abbrev pub EmptyCaches : Geo → State → List Addr → Type 0
EmptyCaches geo s fp = (a : Addr) → has a fp ≡ true → Ring s (ptr a (cache_start geo))

module _ (fuel : ℕ) (geo : Geo) {s : State} where
  reap_node-null :
      (a : Addr)
      → Ring s (ptr a (cache_start geo))
      → reap_node (suc (suc fuel)) geo true a s ≡ fault
  unfolding reap_node
  reap_node-null a r =
      ground (arith, free_queue-null fuel (cache_start geo) r.queue r.entry1 r.entry2)

  -- The first child faults, or its freeing does.
  below_fault :
      {a : Addr} {fill : ℕ} (d r count : ℕ)
      → Holds geo s a fill
      → 0 < r
      → for_each_slots (suc (suc fuel)) geo true d geo.no_pairs (bval geo (s.word a) 0) 0 count s
        ≡ fault
      → for_each_slots (suc (suc fuel)) geo true (suc d) r a 0 count s ≡ fault
  unfolding for_each_slots
  below_fault d zero count h pos run = absurd (omega arith)
  below_fault d (suc r) count h pos run =
      ground (arith, read_node-Holds h, h.node.used 0 h.some_pair, run)

  reap_fault :
      {a : Addr} {fill : ℕ} (d r count : ℕ) {x : ℕ × List Visit}
      → Holds geo s a fill
      → 0 < r
      → for_each_slots (suc (suc fuel)) geo true d geo.no_pairs (bval geo (s.word a) 0) 0 count s
        ≡ ok x s
      → reap_node (suc (suc fuel)) geo true (bval geo (s.word a) 0) s ≡ fault
      → for_each_slots (suc (suc fuel)) geo true (suc d) r a 0 count s ≡ fault
  unfolding for_each_slots
  reap_fault d zero count h pos run reap = absurd (omega arith)
  reap_fault d (suc r) count h pos run reap =
      ground (arith, read_node-Holds h, h.node.used 0 h.some_pair, run, reap)

  leaf_slots :
      {a : Addr} {fill : ℕ} (count : ℕ)
      → Holds geo s a fill
      → (x : ℕ × List Visit) × (for_each_slots (suc (suc fuel)) geo true 0 geo.no_pairs a 0 count s
          ≡ ok x s)
  leaf_slots {a} {fill} count h =
      let (calls, run, shown) =
        leaf_slots-Visits (suc (suc fuel)) true h (pair geo (s.word a)) 0 geo.no_pairs fill count
          (omega arith) (omega arith) (λ j. ap (pair geo (s.word a)) (omega arith)) in
      (_, run)

  -- The slots of a parent: the first leaf below is the first node that is freed.
  parent_slots :
      (d : ℕ) {a : Addr} {es : List (ℕ × ℕ)} {fp : List Addr} (count : ℕ)
      → IsTree geo s (suc d) a es fp
      → EmptyCaches geo s fp
      → for_each_slots (suc (suc fuel)) geo true (suc d) geo.no_pairs a 0 count s ≡ fault
  parent_slots d count (inner h out nil) caches = absurd (omega (arith, h.some_pair))
  parent_slots zero {a} count (inner h out (cons {f1} {f2} t f apart low high)) caches =
      let (n, hc) = IsTree-Holds t in
      let (x, run) = leaf_slots count hc in
      let child = bval geo (s.word a) 0 in
      reap_fault 0 geo.no_pairs count h (omega (arith, h.some_pair, h.node.within)) run (
        reap_node-null child (caches child (ground (arith, root_inside t, has-append child f1 f2))))
  parent_slots (suc d) {a} count (inner h out (cons {f1} {f2} t f apart low high)) caches =
      below_fault (suc d) geo.no_pairs count h (omega (arith, h.some_pair, h.node.within))
        (parent_slots d count t (λ x i. caches x (ground (arith, i, has-append x f1 f2))))

  -- On a tree of any height whose nodes have the empty caches that `cbtree_node_alloc` makes,
  -- `cbtree_grim_visitor` is a fault: `freeQueue` reads through `NULL` at the first node that is
  -- freed. There are two units of fuel.
  pub cbtree_grim_visitor-null :
      {d : ℕ} {es : List (ℕ × ℕ)} {fp : List Addr} (some_func : Bool)
      → IsCbtree geo s d es fp
      → EmptyCaches geo s fp
      → cbtree_grim_visitor (suc (suc fuel)) geo some_func s ≡ fault
  unfolding cbtree_grim_visitor cbtree_for_each get_head
  cbtree_grim_visitor-null {d = zero} some_func t caches =
      let (n, h) = IsTree-Holds t.tree in
      let (x, run) = leaf_slots 0 h in
      let reap = reap_node-null s.head.node (caches s.head.node (root_inside t.tree)) in
      ground (arith, t.height, run, reap, h.ne_null)
  cbtree_grim_visitor-null {d = suc d} some_func t caches =
      ground (arith, t.height, parent_slots d 0 t.tree caches, (IsTree-Holds t.tree).1.ne_null)
