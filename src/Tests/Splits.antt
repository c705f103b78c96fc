-- ===== src/Tests/Splits.antt =====
-- An insertion into a full leaf.
use btree_profiling.Common.{
  ℕ, suc, ◌+◌, ◌<◌, ◌≤◌, ◌≡◌, ◌≢◌, refl, ap, sym, ◌∙◌, true, false, List, [], ◌∷◌, arith, ◌==◌,
}
use btree_profiling.Memory.{
  Addr, State, Run, ok, ptr, update, mempool_alloc, place, kmalloc, store, set_words, in_block,
}
use btree_profiling.Cache.{init_queue, make_entries}
use btree_profiling.Words.Order.{value}
use btree_profiling.Node.{bval, bkey}
use btree_profiling.Node.Slots.{key_num, pair}
use btree_profiling.Node.Search.{IsNode}
use btree_profiling.Tree.{success, cbtree_node_alloc, write_node, block_words}
use btree_profiling.Tree.Alloc.{HasNode}
use btree_profiling.Tree.Lookup.Leaf.{IsLeaf}
use btree_profiling.Tree.Insert.{cbtree_insert}
use btree_profiling.Tree.Insert.Walk.{HoldsKey, key_at}
use btree_profiling.Tree.Insert.Split.Full.{IsSplit, HasTwo, cbtree_insert-IsSplit}
use btree_profiling.Tests.{row, row-IsWords, below_four, geo4, geo4-IsGeo, env, first_free}
use btree_profiling.Tests.Allocs.{IsBelow, first_free-IsBelow, env-HasMemory}

abbrev numbers : List ℕ
numbers = 40 ∷ 30 ∷ 20 ∷ 10 ∷ 140 ∷ 130 ∷ 120 ∷ 110 ∷ []

-- Block 2 is the leaf, block 1 the caller's key, 7.
abbrev full_leaf : State
full_leaf = record {
  size = λ a. elim (a == 1) [ true ↦ 1 | false ↦ elim (a == 2) [ true ↦ 16 | false ↦ 0 ] ];
  word = λ a. elim (a == 1) [ true ↦ row (7 ∷ []) | false ↦ row numbers ];
  head = record { node = 2; mempool = 1; height = 1 };
}

four_pairs : IsNode geo4 (row numbers) 4
unfolding bval
four_pairs = record {
  words = row-IsWords numbers 4 (omega arith);
  within = omega arith;
  used =
      below_four (λ i. row numbers (4 + i) ≢ 0) (λ e. omega arith) (λ e. omega arith)
        (λ e. omega arith) (λ e. omega arith);
  unused = λ i p q. absurd (omega arith);
}

full_leaf-IsLeaf : IsLeaf geo4 full_leaf 4
full_leaf-IsLeaf = record {
  height = refl;
  root = record {
    ne_null = λ e. omega arith;
    live = omega arith;
    node = four_pairs;
    some_pair = omega arith;
  };
}

below-HasNode : (m : ℕ) (s : State) → IsBelow m s → 2 ≤ m → m < 190 → HasNode env geo4 s
unfolding update
below-HasNode m s h low high =
    let (ne, free, le) = first_free-IsBelow 200 2 m s h (omega arith) low (omega arith) in
    record {
      ne_null = ne;
      free = free;
      cache_memory =
          env-HasMemory 9 (suc m) _ (λ a p. ground (arith, h a, le)) (omega arith) (omega arith);
      cache_inside = omega arith;
    }

abbrev state_of : Run Addr → State
state_of (ok a s) = s
state_of r = full_leaf

after-IsBelow :
    (b : Addr) (s1 : State) → cbtree_node_alloc env geo4 full_leaf ≡ ok b s1 → IsBelow 13 s1
unfolding cbtree_node_alloc mempool_alloc place kmalloc init_queue make_entries store update
    set_words write_node block_words first_free in_block
after-IsBelow b s1 e a p = sym (ap (λ r. (state_of r).size a) e) ∙ ground arith

full_leaf-HasTwo : HasTwo env geo4 full_leaf
full_leaf-HasTwo = record {
  one = below-HasNode 3 full_leaf (λ a p. ground arith) (omega arith) (omega arith);
  more = λ b s1 e. below-HasNode 13 s1 (after-IsBelow b s1 e) (omega arith) (omega arith);
}

full_leaf-HoldsKey : HoldsKey geo4 full_leaf (ptr 1 0)
full_leaf-HoldsKey = record {
  ne_null = λ e. omega arith;
  live = omega arith;
  words = λ i p. ground (arith, row-IsWords (7 ∷ []) 1 (omega arith) i p);
}

cbtree_insert-IsSplit_example :
    (s' : State) × (cbtree_insert 4 env geo4 (ptr 1 0) 107 full_leaf ≡ ok success s')
    × IsSplit geo4 full_leaf (value (key_at full_leaf (ptr 1 0)) 1) 107 s'
unfolding pair key_num value bkey bval
cbtree_insert-IsSplit_example =
    cbtree_insert-IsSplit geo4-IsGeo 0 env (ptr 1 0) 107 full_leaf full_leaf-IsLeaf (omega arith)
      (omega arith) full_leaf-HasTwo full_leaf-HoldsKey (λ e. omega arith) refl (λ e. omega arith)
