-- ===== src/Tests/Failures.antt =====
-- Insertions without memory and a merge into an empty tree, at concrete inputs.
use btree_profiling.Common.{ℕ, ◌≡◌, ◌<◌, ◌≢◌, refl, List, [], ◌∷◌, arith, ◌==◌, if◌then◌else◌}
use btree_profiling.Memory.{null, Head, State, ok, Env, ptr}
use btree_profiling.Words.{word_mod}
use btree_profiling.Words.Order.{value}
use btree_profiling.Node.{bval}
use btree_profiling.Node.Slots.{key_num, pair, entries}
use btree_profiling.Node.Search.{IsNode}
use btree_profiling.Tree.{success, enomem}
use btree_profiling.Tree.Shape.{Holds, IsCbtree, leaf}
use btree_profiling.Tree.Insert.{cbtree_insert}
use btree_profiling.Tree.Insert.Walk.{HoldsKey}
use btree_profiling.Tree.Insert.Room.{SameOutside}
use btree_profiling.Tree.Insert.Failure.{cbtree_insert-full_enomem}
use btree_profiling.Tree.Merge.{cbtree_merge}
use btree_profiling.Tree.Merge.Empty.{cbtree_merge-empty}
use btree_profiling.Tests.{row, row-IsWords, below_four, geo4, geo4-IsGeo, env}

-- An allocator that has nothing left.
abbrev no_memory : Env
no_memory = record env { mempool_alloc = λ s. null }

-- The full leaf 11 and the caller's key, 25, in block 1.
abbrev full : List ℕ
full = 40 ∷ 30 ∷ 20 ∷ 10 ∷ 140 ∷ 130 ∷ 120 ∷ 110 ∷ []

abbrev memory : Head → State
memory h = record {
  size = λ a. if a == 1 then 1 else if a == 11 then 16 else 0;
  word = λ a. if a == 11 then row full else row (25 ∷ []);
  head = h;
}

abbrev of_leaf : Head
of_leaf = record { node = 11; mempool = 2; height = 1 }

abbrev of_empty : Head
of_empty = record { node = null; mempool = 3; height = 0 }

full-IsNode : IsNode geo4 (row full) 4
unfolding bval pair key_num value
full-IsNode = record {
  words = λ i p.
      below_four (λ i. row full i < word_mod) (omega arith) (omega arith) (omega arith)
        (omega arith) i p;
  within = omega arith;
  used =
      below_four (λ i. bval geo4 (row full) i ≢ 0) (λ e. omega arith) (λ e. omega arith)
        (λ e. omega arith) (λ e. omega arith);
  unused = λ i p q. absurd (omega arith);
}

full-Holds : (h : Head) → Holds geo4 (memory h) 11 4
full-Holds h = record {
  ne_null = λ e. omega arith;
  live = omega arith;
  node = full-IsNode;
  some_pair = omega arith;
}

full-HoldsKey : HoldsKey geo4 (memory of_leaf) (ptr 1 0)
full-HoldsKey = record {
  ne_null = λ e. omega arith;
  live = omega arith;
  words = λ i p. ground (arith, row-IsWords (25 ∷ []) 1 (omega arith) i p);
}

cbtree_insert-full_enomem_example :
    cbtree_insert 2 no_memory geo4 (ptr 1 0) 125 (memory of_leaf) ≡ ok enomem (memory of_leaf)
unfolding value bval pair key_num
cbtree_insert-full_enomem_example =
    cbtree_insert-full_enomem geo4-IsGeo (record { height = refl; root = full-Holds of_leaf })
      full-HoldsKey 0 no_memory 125 refl refl (λ e. omega arith)

cbtree_merge-empty_example :
    (s' : State) × (cbtree_merge env geo4 1 1 0 50 60 of_leaf (memory of_empty)
      ≡ ok (success, record of_leaf { node = null; height = 0 }) s')
    × IsCbtree geo4 s' 0 (entries geo4 (row full) 4) (11 ∷ [])
    × SameOutside [] (memory of_empty) s'
    × (s'.head.mempool ≡ 3)
cbtree_merge-empty_example =
    cbtree_merge-empty (memory of_empty) of_leaf env 1 1 0 50 60 (λ e. omega arith) refl
      (record { height = refl; tree = leaf (full-Holds of_leaf) })
