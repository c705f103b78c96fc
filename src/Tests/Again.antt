-- ===== src/Tests/Again.antt =====
-- Two lookups after one another, in a tree of two levels whose root has an empty cache, and a visit that
-- frees a leaf with such a cache.
use btree_profiling.Common.{
  ℕ, zero, suc, ◌+◌, ◌<◌, ◌≤◌, ◌≡◌, ◌≢◌, refl, true, List, [], ◌∷◌, arith, ◌==◌, if◌then◌else◌,
  ◌&&◌, leb, ap, subst,
}
use btree_profiling.Memory.{Addr, null, State, ok, fault, ptr}
use btree_profiling.Words.{word_mod}
use btree_profiling.Words.Order.{value}
use btree_profiling.Entries.{has_key}
use btree_profiling.Node.{Geo, cbtree_geo32, bval, cache_start}
use btree_profiling.Node.Slots.{key_num, pair, entries}
use btree_profiling.Node.Search.{IsNode}
use btree_profiling.Cache.Lookup.{Entry}
use btree_profiling.Cache.Init.Ring.{Ring}
use btree_profiling.Tree.Shape.{has, Holds, IsCbtree, leaf, inner, nil, cons}
use btree_profiling.Tree.Insert.Walk.{key_at}
use btree_profiling.Tree.Lookup.{cbtree_lookup}
use btree_profiling.Tree.Lookup.Again.{HasCache, CallerKey, cbtree_lookup-again}
use btree_profiling.Tree.Visit.{cbtree_grim_visitor}
use btree_profiling.Tree.Visit.Grim.{cbtree_grim_visitor-null}
use btree_profiling.Tests.{row, row-IsWords, below_two}

-- The geometry of longs of eight bytes in nodes of 128, and a node of two pairs with its queue.
abbrev geo : Geo
geo = cbtree_geo32 128 8

abbrev node : ℕ → ℕ → ℕ → ℕ → ℕ → List ℕ
node k0 k1 v0 v1 q = k0 ∷ k1 ∷ 0 ∷ 0 ∷ 0 ∷ 0 ∷ 0 ∷ v0 ∷ v1 ∷ 0 ∷ 0 ∷ 0 ∷ 0 ∷ 0 ∷ q ∷ []

module _ (k0 k1 v0 v1 q : ℕ) where
  node-unused : (i : ℕ) → 2 ≤ i → i < 7 → pair geo (row (node k0 k1 v0 v1 q)) i ≡ (0, 0)
  unfolding pair key_num bval value cbtree_geo32
  node-unused (suc (suc zero)) p h = refl
  node-unused (suc (suc (suc zero))) p h = refl
  node-unused (suc (suc (suc (suc zero)))) p h = refl
  node-unused (suc (suc (suc (suc (suc zero))))) p h = refl
  node-unused (suc (suc (suc (suc (suc (suc zero)))))) p h = refl
  node-unused i p h = absurd (omega arith)

  node-IsNode :
      k0 < word_mod
      → k1 < word_mod
      → v0 < word_mod
      → v1 < word_mod
      → q < word_mod
      → v0 ≢ 0
      → v1 ≢ 0
      → IsNode geo (row (node k0 k1 v0 v1 q)) 2
  unfolding cbtree_geo32 bval
  node-IsNode h0 h1 h2 h3 h4 n0 n1 = record {
    words = row-IsWords (node k0 k1 v0 v1 q) 7 (omega arith);
    within = omega arith;
    used = below_two (λ i. row (node k0 k1 v0 v1 q) (7 + i) ≢ 0) n0 n1;
    unused = node-unused;
  }

-- The root 10 over the leaves 11 and 12; its queue 20, the ring 21 to 24 with the keys 31 to 34. Blocks
-- 1 and 2 are the callers' keys, 20 and 7.
abbrev words : Addr → List ℕ
words a =
    if a == 10
    then node 20 5 11 12 20
    else if a == 11
    then node 30 20 130 120 0
    else if a == 12
    then node 10 5 110 105 0
    else if a == 20
    then 21 ∷ []
    else if a == 21
    then null ∷ 31 ∷ 22 ∷ []
    else if a == 22
    then null ∷ 32 ∷ 23 ∷ []
    else if a == 23
    then null ∷ 33 ∷ 24 ∷ []
    else if a == 24
    then null ∷ 34 ∷ 21 ∷ []
    else if a == 1
    then 20 ∷ []
    else 7 ∷ []

abbrev at_height : ℕ → State
at_height n = record {
  size = λ a.
      if leb 1 a && leb a 2
      then 1
      else if leb 10 a && leb a 12
      then 16
      else if a == 20
      then 1
      else if leb 21 a && leb a 24
      then 3
      else if leb 31 a && leb a 34
      then 2
      else 0;
  word = λ a. row (words a);
  head = record { node = 10; mempool = 3; height = n };
}

abbrev memory : State
memory = at_height 2

memory-Holds : (a : Addr) → 10 ≤ a → a ≤ 12 → IsNode geo (memory.word a) 2 → Holds geo memory a 2
unfolding cbtree_geo32
memory-Holds a low high is = record {
  ne_null = λ e. omega arith;
  live = ground arith;
  node = is;
  some_pair = omega arith;
}

abbrev four : List (ℕ × ℕ)
four = (30, 130) ∷ (20, 120) ∷ (10, 110) ∷ (5, 105) ∷ []

abbrev nodes : List Addr
nodes = 10 ∷ 11 ∷ 12 ∷ []

memory-IsCbtree : IsCbtree geo memory 1 four nodes
unfolding bval pair key_num value cbtree_geo32
memory-IsCbtree = record {
  height = refl;
  tree =
      inner
        (memory-Holds 10 (omega arith) (omega arith) (
          node-IsNode 20 5 11 12 20 (omega arith) (omega arith) (omega arith) (omega arith)
            (omega arith) (λ e. omega arith) (λ e. omega arith)))
        refl
        (cons
          (leaf (
            memory-Holds 11 (omega arith) (omega arith) (
              node-IsNode 30 20 130 120 0 (omega arith) (omega arith) (omega arith) (omega arith)
                (omega arith) (λ e. omega arith) (λ e. omega arith))))
          (cons
            (leaf (
              memory-Holds 12 (omega arith) (omega arith) (
                node-IsNode 10 5 110 105 0 (omega arith) (omega arith) (omega arith) (omega arith)
                  (omega arith) (λ e. omega arith) (λ e. omega arith))))
            nil (λ a h. refl) (omega arith) tt)
          (λ a h. ground arith) (omega arith) (omega arith));
}

memory-Entry :
    (n : ℕ) (c k next : Addr)
    → c ≢ null
    → 3 ≤ (at_height n).size c
    → (at_height n).word c 0 ≡ null
    → (at_height n).word c 1 ≡ k
    → (at_height n).word c 2 ≡ next
    → k ≢ null
    → (at_height n).size k ≡ 2
    → Entry (at_height n) c null k next
memory-Entry n c k next ne live e0 e1 e2 kne ks = record {
  ne_null = ne;
  live = live;
  node_is = e0;
  key_is = e1;
  next_is = e2;
  key_ne_null = kne;
  key_live = ks;
}

abbrev root_ring : (n : ℕ) → Ring (at_height n) (ptr 10 (cache_start geo))
unfolding cbtree_geo32
root_ring n = record {
  q = 20;
  c1 = 21;
  c2 = 22;
  c3 = 23;
  c4 = 24;
  k1 = 31;
  k2 = 32;
  k3 = 33;
  k4 = 34;
  queue = record {
    at_node = λ e. omega arith;
    in_node = omega arith;
    points = refl;
    ne_null = λ e. omega arith;
    live = omega arith;
    head = refl;
  };
  entry1 =
      memory-Entry n 21 31 22 (λ e. omega arith) (omega arith) refl refl refl (λ e. omega arith)
        refl;
  entry2 =
      memory-Entry n 22 32 23 (λ e. omega arith) (omega arith) refl refl refl (λ e. omega arith)
        refl;
  entry3 =
      memory-Entry n 23 33 24 (λ e. omega arith) (omega arith) refl refl refl (λ e. omega arith)
        refl;
  entry4 =
      memory-Entry n 24 34 21 (λ e. omega arith) (omega arith) refl refl refl (λ e. omega arith)
        refl;
}

node_range : (a : Addr) → has a nodes ≡ true → (10 ≤ a) × (a ≤ 12)
node_range a h = ground arith

abbrev root_cache : HasCache geo 16 memory nodes
unfolding cbtree_geo32
root_cache = record {
  ring = root_ring 2;
  apart = record {
    q_c1 = λ e. omega arith;
    q_c2 = λ e. omega arith;
    q_c3 = λ e. omega arith;
    q_c4 = λ e. omega arith;
    q_k2 = λ e. omega arith;
    k2_c1 = λ e. omega arith;
    k2_c2 = λ e. omega arith;
    k2_c3 = λ e. omega arith;
    k2_c4 = λ e. omega arith;
    c2_c1 = λ e. omega arith;
    c2_c3 = λ e. omega arith;
    c2_c4 = λ e. omega arith;
  };
  outside = λ a h. record {
    q = λ e. omega (arith, node_range a h);
    c1 = λ e. omega (arith, node_range a h);
    c2 = λ e. omega (arith, node_range a h);
    c3 = λ e. omega (arith, node_range a h);
    c4 = λ e. omega (arith, node_range a h);
    k2 = λ e. omega (arith, node_range a h);
  };
  sized = λ a h. ground (arith, node_range a h);
}

caller-CallerKey :
    (a : Addr)
    → 1 ≤ a
    → a ≤ 2
    → memory.word a 0 < word_mod
    → CallerKey geo 16 memory nodes root_cache (ptr a 0)
unfolding cbtree_geo32
caller-CallerKey a low high small = record {
  holds = record {
    ne_null = λ e. omega arith;
    live = ground arith;
    words = λ i p. ground (arith, small, ap (memory.word a) {x = 0} {y = 0 + i});
  };
  outside_tree = ground arith;
  outside_ring = record {
    q = λ e. omega arith;
    c1 = λ e. omega arith;
    c2 = λ e. omega arith;
    c3 = λ e. omega arith;
    c4 = λ e. omega arith;
    k2 = λ e. omega arith;
  };
}

cbtree_lookup-again_example :
    (found : Addr) × (fill : ℕ) × (s' : State) × (cbtree_lookup 0 geo (ptr 1 0) memory
      ≡ ok found s')
    × (has_key (value (key_at memory (ptr 1 0)) 1) (entries geo (memory.word found) fill) ≡ true)
    × Holds geo memory found fill
    × (s'.word 22 0 ≡ found)
    × (cbtree_lookup 0 geo (ptr 2 0) s' ≡ fault)
unfolding value cbtree_geo32
cbtree_lookup-again_example =
    cbtree_lookup-again 8 (omega arith) memory-IsCbtree root_cache
      (caller-CallerKey 1 (omega arith) (omega arith) (omega arith)) refl (λ e. omega arith)
      (ptr 2 0) 0

-- The block 10 as a tree of one leaf.
single-IsCbtree : IsCbtree geo (at_height 1) 0 ((20, 11) ∷ (5, 12) ∷ []) (10 ∷ [])
unfolding bval pair key_num value cbtree_geo32
single-IsCbtree = record {
  height = refl;
  tree = leaf (record {
    ne_null = λ e. omega arith;
    live = omega arith;
    node =
        node-IsNode 20 5 11 12 20 (omega arith) (omega arith) (omega arith) (omega arith)
          (omega arith) (λ e. omega arith) (λ e. omega arith);
    some_pair = omega arith;
  });
}

cbtree_grim_visitor-null_example : cbtree_grim_visitor 2 geo true (at_height 1) ≡ fault
unfolding cbtree_geo32
cbtree_grim_visitor-null_example = cbtree_grim_visitor-null 0 geo true single-IsCbtree (λ a h.
    subst (λ a. Ring (at_height 1) (ptr a (cache_start geo))) (ground (arith, h)) (root_ring 1))
