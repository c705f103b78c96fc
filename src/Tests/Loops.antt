-- ===== src/Tests/Loops.antt =====
-- The macros that visit a tree, at a leaf of two entries in nodes of 128 bytes.
use btree_profiling.Common.{
  ℕ, zero, suc, ◌+◌, ◌<◌, ◌≤◌, ◌≡◌, ◌≢◌, refl, true, false, List, [], ◌∷◌, arith, ◌==◌,
  if◌then◌else◌, leb, ◌&&◌, ap, ◌∙◌,
}
use btree_profiling.Memory.{Addr, State, ok, out_of_fuel}
use btree_profiling.Words.{word_mod}
use btree_profiling.Words.Order.{value}
use btree_profiling.Node.{bval, bkey, cbtree_geo32, getfill}
use btree_profiling.Node.Slots.{key_num, pair}
use btree_profiling.Node.Search.{IsNode}
use btree_profiling.Tree.Lookup.Leaf.{IsLeaf}
use btree_profiling.Tree.Shape.{IsCbtree, Holds, leaf, inner, nil, cons}
use btree_profiling.Tree.Prev.Frame.{IsKeyed}
use btree_profiling.Typed.Local.{IsStack, Calm}
use btree_profiling.Typed.ForEach.{cbtree_for_each_safel}
use btree_profiling.Typed.ForEach.Circle.{cbtree_for_each_safel-endless}
use btree_profiling.Typed.ForEach.Entries.{collect, cbtree_for_each_safel-entries}
use btree_profiling.Tests.{row, row-IsWords, below_two, first_free}
use btree_profiling.Tests.Allocs.{IsBelow, first_free-IsBelow}

-- A node of two pairs of numbers.
abbrev two_pairs : ℕ → ℕ → ℕ → ℕ → List ℕ
two_pairs k1 k2 v1 v2 = k1 ∷ k2 ∷ 0 ∷ 0 ∷ 0 ∷ 0 ∷ 0 ∷ v1 ∷ v2 ∷ []

module _ (k1 k2 v1 v2 : ℕ) where
  two_pairs-unused :
      (i : ℕ) → 2 ≤ i → i < 7 → pair (cbtree_geo32 128 8) (row (two_pairs k1 k2 v1 v2)) i ≡ (0, 0)
  unfolding pair key_num bval value cbtree_geo32
  two_pairs-unused (suc (suc zero)) p q = refl
  two_pairs-unused (suc (suc (suc zero))) p q = refl
  two_pairs-unused (suc (suc (suc (suc zero)))) p q = refl
  two_pairs-unused (suc (suc (suc (suc (suc zero))))) p q = refl
  two_pairs-unused (suc (suc (suc (suc (suc (suc zero)))))) p q = refl
  two_pairs-unused i p q = absurd (omega arith)

  two_pairs-IsNode :
      k1 < word_mod
      → k2 < word_mod
      → v1 < word_mod
      → v2 < word_mod
      → v1 ≢ 0
      → v2 ≢ 0
      → IsNode (cbtree_geo32 128 8) (row (two_pairs k1 k2 v1 v2)) 2
  unfolding cbtree_geo32 bval
  two_pairs-IsNode p1 p2 q1 q2 n1 n2 = record {
    words = row-IsWords (two_pairs k1 k2 v1 v2) 7 (omega arith);
    within = omega arith;
    used = below_two (λ i. row (two_pairs k1 k2 v1 v2) (7 + i) ≢ 0) n1 n2;
    unused = two_pairs-unused;
  }

abbrev pub leaf_block : State
leaf_block = record {
  size = λ a. elim (a == 2) [ true ↦ 16 | false ↦ 0 ];
  word = λ a. row (two_pairs 30 20 130 120);
  head = record { node = 2; mempool = 1; height = 1 };
}

pub leaf_block-IsLeaf : IsLeaf (cbtree_geo32 128 8) leaf_block 2
unfolding cbtree_geo32
leaf_block-IsLeaf = record {
  height = refl;
  root = record {
    ne_null = λ e. omega arith;
    live = omega arith;
    node =
        two_pairs-IsNode 30 20 130 120 (omega arith) (omega arith) (omega arith) (omega arith)
          (λ e. omega arith) (λ e. omega arith);
    some_pair = omega arith;
  };
}

first_free-IsStack :
    (m : ℕ) (s : State) → IsBelow m s → 2 ≤ m → m < 202 → IsStack (first_free 200 2) s
first_free-IsStack m s h low high = record {
  ne_null = λ s' e.
      (first_free-IsBelow 200 2 m s' (λ a p. e a ∙ h a p) (omega arith) low (omega arith)).0;
  free = λ s' e.
      (first_free-IsBelow 200 2 m s' (λ a p. e a ∙ h a p) (omega arith) low (omega arith)).1;
}

pub leaf_block-IsStack : IsStack (first_free 200 2) leaf_block
leaf_block-IsStack =
    first_free-IsStack 3 leaf_block (λ a p. ground arith) (omega arith) (omega arith)

-- The root 3 over the leaves 4 and 5, in nodes of 128 bytes, with the key `b` over the last one.
abbrev two_levels : ℕ → State
two_levels b = record {
  size = λ a. if leb 3 a && leb a 5 then 16 else 0;
  word = λ a. row (
      if a == 3
      then two_pairs 20 b 4 5
      else if a == 4
      then two_pairs 30 20 130 120
      else two_pairs 10 5 110 105);
  head = record { node = 3; mempool = 1; height = 2 };
}

module _ (b a : Addr) (inside : (3 ≤ a) × (a ≤ 5)) where
  two_levels-Holds :
      IsNode (cbtree_geo32 128 8) ((two_levels b).word a) 2
      → Holds (cbtree_geo32 128 8) (two_levels b) a 2
  unfolding cbtree_geo32
  two_levels-Holds node = record {
    ne_null = λ e. omega arith;
    live = ground arith;
    node = node;
    some_pair = omega arith;
  }

abbrev four : List (ℕ × ℕ)
four = (30, 130) ∷ (20, 120) ∷ (10, 110) ∷ (5, 105) ∷ []

two_levels-IsCbtree :
    (b : ℕ) → b ≤ 5 → IsCbtree (cbtree_geo32 128 8) (two_levels b) 1 four (3 ∷ 4 ∷ 5 ∷ [])
unfolding bval pair key_num value cbtree_geo32
two_levels-IsCbtree b small = record {
  height = refl;
  tree =
      inner
        (two_levels-Holds b 3 (omega arith) (
          two_pairs-IsNode 20 b 4 5 (omega arith) (omega arith) (omega arith) (omega arith)
            (λ e. omega arith) (λ e. omega arith)))
        refl
        (cons
          (leaf (
            two_levels-Holds b 4 (omega arith) (
              two_pairs-IsNode 30 20 130 120 (omega arith) (omega arith) (omega arith) (omega arith)
                (λ e. omega arith) (λ e. omega arith))))
          (cons
            (leaf (
              two_levels-Holds b 5 (omega arith) (
                two_pairs-IsNode 10 5 110 105 (omega arith) (omega arith) (omega arith)
                  (omega arith) (λ e. omega arith) (λ e. omega arith))))
            nil (λ a h. refl) (omega arith) tt)
          (λ a h. ground arith) (omega arith) (omega arith));
}

root_keys :
    (i : ℕ)
    → i < 7
    → bval (cbtree_geo32 128 8) (row (two_pairs 20 5 4 5)) i ≢ 0
    → (1 ≤ key_num (cbtree_geo32 128 8) (row (two_pairs 20 5 4 5)) i) × Unit {0}
unfolding bval key_num value cbtree_geo32 pair
root_keys zero p used = (omega arith, tt)
root_keys (suc zero) p used = (omega arith, tt)
root_keys (suc (suc i)) p used =
    absurd
      (used (ap (λ (x : ℕ × ℕ). x.1) (two_pairs-unused 20 5 4 5 (suc (suc i)) (omega arith) p)))

two_levels-IsKeyed : IsKeyed (cbtree_geo32 128 8) (two_levels 5) 1 1 four (3 ∷ 4 ∷ 5 ∷ [])
unfolding cbtree_geo32
two_levels-IsKeyed = record { shape = two_levels-IsCbtree 5 (omega arith); keys = root_keys }

two_levels-IsStack : (b : ℕ) → IsStack (first_free 200 2) (two_levels b)
two_levels-IsStack b =
    first_free-IsStack 6 (two_levels b) (λ a p. ground arith) (omega arith) (omega arith)

cbtree_for_each_safel-entries_example :
    (s' : State) × (cbtree_for_each_safel (first_free 200 2) 128 collect 2 5 0 (two_levels 5)
      ≡ ok four s')
    × Calm (two_levels 5) s'
unfolding cbtree_geo32
cbtree_for_each_safel-entries_example =
    cbtree_for_each_safel-entries 128 0 (two_levels 5) (two_levels-IsStack 5) two_levels-IsKeyed
      (omega arith) 2 5 (omega arith) (omega arith)

cbtree_for_each_safel-endless_example :
    cbtree_for_each_safel (first_free 200 2) 128 collect 31 100 0 (two_levels 0) ≡ out_of_fuel
unfolding key_num bval bkey value cbtree_geo32 getfill
cbtree_for_each_safel-endless_example =
    cbtree_for_each_safel-endless 128 31 0 (two_levels 0) (two_levels-IsStack 0)
      (record { shape = two_levels-IsCbtree 0 (omega arith); keys = λ i p u. (omega arith, tt) })
      refl (omega arith) (omega arith) 100
