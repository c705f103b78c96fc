-- ===== src/Tests/Trees.antt =====
-- The properties of trees at concrete inputs.
use btree_profiling.Common.{
  ◌≢◌, ◌≤◌, ℕ, Option, ◌≡◌, ◌<◌, refl, true, some, List, [], ◌∷◌, arith, remove_at, map, ◌&&◌, leb,
  ◌==◌, if◌then◌else◌,
}
use btree_profiling.Memory.{Addr, null, Words, State, ok, ptr, get_head}
use btree_profiling.Words.{longcmp}
use btree_profiling.Words.Order.{value}
use btree_profiling.Entries.{has_key, insert, erase, lookup, before, update_value}
use btree_profiling.Node.{bval, getpos, getfill, key_le, keycmp}
use btree_profiling.Node.Slots.{key_num, pair, entries}
use btree_profiling.Node.Search.{IsNode}
use btree_profiling.Tree.{success, cbtree_last, find_level}
use btree_profiling.Tree.Shape.{Holds, IsCbtree, leaf, inner, nil, cons}
use btree_profiling.Tree.Last.{cbtree_last-head}
use btree_profiling.Tree.Roundtrip.{
  cbtree_remove-cbtree_insert, cbtree_lookup-cbtree_insert, cbtree_lookup-cbtree_remove,
}
use btree_profiling.Tree.Visit.{cbtree_visitor, Visit}
use btree_profiling.Tree.Visit.Insert.{cbtree_visitor-cbtree_insert}
use btree_profiling.Tree.Visit.Order.{view, number, Visits, cbtree_visitor-Visits}
use btree_profiling.Tree.Insert.{cbtree_insert}
use btree_profiling.Tree.Insert.Walk.{HoldsKey, key_at}
use btree_profiling.Tree.Insert.Room.{SameOutside, cbtree_insert-room}
use btree_profiling.Words.{word_mod}
use btree_profiling.Tree.Lookup.{cbtree_lookup, cbtree_update}
use btree_profiling.Tree.Lookup.Leaf.{IsLeaf, cbtree_lookup-leaf}
use btree_profiling.Tree.Remove.{cbtree_remove}
use btree_profiling.Tree.Remove.Leaf.{cbtree_remove-leaf, cbtree_remove-zero}
use btree_profiling.Tree.Prev.{cbtree_get_prev}
use btree_profiling.Tree.Prev.Leaf.{as_entry}
use btree_profiling.Tree.Insert.Prev.{cbtree_get_prev-cbtree_insert}
use btree_profiling.Tree.Prev.Before.{cbtree_get_prev-before}
use btree_profiling.Tree.Prev.Wrap.{cbtree_get_prev-wraps}
use btree_profiling.Tree.Prev.Frame.{IsKeyed}
use btree_profiling.Tree.Lookup.Update.{cbtree_update-update_value}
use btree_profiling.Tests.{row, row-IsWords, pairs-IsNode, below_four, geo4, geo4-IsGeo, env}

-- The root 10 over the leaves 11 and 12; block 1 is the caller's key, 7.
abbrev words : Addr → List ℕ
words a =
    if a == 10
    then 20 ∷ 5 ∷ 0 ∷ 0 ∷ 11 ∷ 12 ∷ []
    else if a == 11
    then 30 ∷ 20 ∷ 0 ∷ 0 ∷ 130 ∷ 120 ∷ []
    else if a == 12
    then 10 ∷ 5 ∷ 0 ∷ 0 ∷ 110 ∷ 105 ∷ []
    else 7 ∷ []

abbrev memory : State
memory = record {
  size = λ a. if a == 1 then 1 else if leb 10 a && leb a 12 then 16 else 0;
  word = λ a. row (words a);
  head = record { node = 10; mempool = 2; height = 2 };
}

root-Holds : Holds geo4 memory 10 2
root-Holds = record {
  ne_null = λ e. omega arith;
  live = omega arith;
  node = pairs-IsNode 20 5 11 12 (omega arith) (omega arith) (λ e. omega arith) (λ e. omega arith);
  some_pair = omega arith;
}

left-Holds : Holds geo4 memory 11 2
left-Holds = record {
  ne_null = λ e. omega arith;
  live = omega arith;
  node =
      pairs-IsNode 30 20 130 120 (omega arith) (omega arith) (λ e. omega arith) (λ e. omega arith);
  some_pair = omega arith;
}

right-Holds : Holds geo4 memory 12 2
right-Holds = record {
  ne_null = λ e. omega arith;
  live = omega arith;
  node =
      pairs-IsNode 10 5 110 105 (omega arith) (omega arith) (λ e. omega arith) (λ e. omega arith);
  some_pair = omega arith;
}

abbrev four : List (ℕ × ℕ)
four = (30, 130) ∷ (20, 120) ∷ (10, 110) ∷ (5, 105) ∷ []

abbrev nodes : List Addr
nodes = 10 ∷ 11 ∷ 12 ∷ []

memory-IsCbtree : IsCbtree geo4 memory 1 four nodes
unfolding bval pair key_num value
memory-IsCbtree = record {
  height = refl;
  tree = inner root-Holds refl (
      cons (leaf left-Holds) (cons (leaf right-Holds) nil (λ a h. refl) (omega arith) tt)
        (λ a h. ground arith) (omega arith) (omega arith));
}

key-HoldsKey : HoldsKey geo4 memory (ptr 1 0)
key-HoldsKey = record {
  ne_null = λ e. omega arith;
  live = omega arith;
  words = λ i p. ground (arith, row-IsWords (7 ∷ []) 1 (omega arith) i p);
}

cbtree_last-head_example :
    (key : Words) × (v : ℕ) × (rest : List (ℕ × ℕ)) × (cbtree_last geo4 memory
      ≡ ok (some (v, key)) memory)
    × (four ≡ (value key 1, v) ∷ rest)
cbtree_last-head_example = cbtree_last-head memory-IsCbtree

cbtree_visitor-Visits_example : Visits geo4 memory 0 four (cbtree_visitor 0 geo4 true memory)
cbtree_visitor-Visits_example = cbtree_visitor-Visits 0 memory-IsCbtree

cbtree_insert-room_example :
    (s' : State) × (cbtree_insert 2 env geo4 (ptr 1 0) 107 memory ≡ ok success s')
    × IsCbtree geo4 s' 1 (insert (value (key_at memory (ptr 1 0)) 1) 107 four) nodes
    × SameOutside nodes memory s'
unfolding value find_level get_head getpos key_le keycmp longcmp bval getfill
cbtree_insert-room_example =
    cbtree_insert-room geo4-IsGeo 0 env (ptr 1 0) 107 memory-IsCbtree key-HoldsKey refl refl
      (λ e. omega arith) (omega arith)

-- One leaf, 11, as the root.
abbrev single : State
single = record memory { head = record { node = 11; mempool = 2; height = 1 } }

abbrev with_key : ℕ → State
with_key k = record single {
  word = λ a. if a == 11 then row (30 ∷ 20 ∷ 0 ∷ 0 ∷ 130 ∷ 120 ∷ []) else row (k ∷ []);
}

single-IsLeaf : (k : ℕ) → IsLeaf geo4 (with_key k) 2
single-IsLeaf k = record {
  height = refl;
  root = record {
    ne_null = λ e. omega arith;
    live = omega arith;
    node =
        pairs-IsNode 30 20 130 120 (omega arith) (omega arith) (λ e. omega arith)
          (λ e. omega arith);
    some_pair = omega arith;
  };
}

single-HoldsKey : (k : ℕ) → k < word_mod → HoldsKey geo4 (with_key k) (ptr 1 0)
single-HoldsKey k h = record {
  ne_null = λ e. omega arith;
  live = omega arith;
  words = λ i p. ground (arith, row-IsWords (k ∷ []) 1 (h, tt) i p);
}

abbrev leaf_entries : List (ℕ × ℕ)
leaf_entries = entries geo4 (row (30 ∷ 20 ∷ 0 ∷ 0 ∷ 130 ∷ 120 ∷ [])) 2

cbtree_lookup-leaf_example :
    cbtree_lookup 0 geo4 (ptr 1 0) (with_key 20)
    ≡ ok
        (if has_key (value (key_at (with_key 20) (ptr 1 0)) 1) leaf_entries then 11 else null)
        (with_key 20)
unfolding value
cbtree_lookup-leaf_example =
    cbtree_lookup-leaf geo4-IsGeo (single-IsLeaf 20) (single-HoldsKey 20 (omega arith)) 0
      (λ e. omega arith)

cbtree_remove-leaf_example :
    (v : ℕ) × (s' : State) × (cbtree_remove 1 geo4 (ptr 1 0) (with_key 30) ≡ ok v s')
    × (lookup (value (key_at (with_key 30) (ptr 1 0)) 1) leaf_entries ≡ some v)
    × IsNode geo4 (s'.word 11) 1
    × (entries geo4 (s'.word 11) 1 ≡ erase (value (key_at (with_key 30) (ptr 1 0)) 1) leaf_entries)
    × SameOutside (11 ∷ []) (with_key 30) s'
    × (s'.head ≡ (with_key 30).head)
unfolding value bval pair key_num
cbtree_remove-leaf_example =
    cbtree_remove-leaf geo4-IsGeo (single-IsLeaf 30) (single-HoldsKey 30 (omega arith)) 0
      (omega arith) refl

cbtree_remove-zero_example :
    (s' : State) × (cbtree_remove 1 geo4 (ptr 1 0) (with_key 0) ≡ ok null s')
    × (entries geo4 (s'.word 11) 1 ≡ remove_at 1 leaf_entries)
    × IsNode geo4 (s'.word 11) 1
unfolding value bval pair key_num
cbtree_remove-zero_example =
    cbtree_remove-zero geo4-IsGeo (single-IsLeaf 0) (single-HoldsKey 0 (omega arith)) 0 refl refl
      (omega arith)

single-IsCbtree : (k : ℕ) → IsCbtree geo4 (with_key k) 0 leaf_entries (11 ∷ [])
single-IsCbtree k = record { height = refl; tree = leaf (single-IsLeaf k).root }

-- The number of the caller's key.
abbrev caller : ℕ → ℕ
caller k = value (key_at (with_key k) (ptr 1 0)) 1

cbtree_remove-cbtree_insert_example :
    (s1 : State) × (s2 : State) × (cbtree_insert 2 env geo4 (ptr 1 0) 125 (with_key 25)
      ≡ ok success s1)
    × (cbtree_remove 1 geo4 (ptr 1 0) s1 ≡ ok 125 s2)
    × IsCbtree geo4 s2 0 leaf_entries (11 ∷ [])
    × SameOutside (11 ∷ []) (with_key 25) s2
unfolding value find_level get_head getpos key_le keycmp longcmp bval getfill pair key_num
cbtree_remove-cbtree_insert_example =
    cbtree_remove-cbtree_insert geo4-IsGeo (ptr 1 0) (single-HoldsKey 25 (omega arith)) refl 0 env
      125 (single-IsCbtree 25) (omega arith) refl (λ e. omega arith) (omega arith)

cbtree_lookup-cbtree_insert_example :
    (cbtree_lookup 0 geo4 (ptr 1 0) (with_key 25) ≡ ok null (with_key 25))
    × ((s' : State) × (cbtree_insert 2 env geo4 (ptr 1 0) 125 (with_key 25) ≡ ok success s')
        × (cbtree_lookup 0 geo4 (ptr 1 0) s' ≡ ok s'.head.node s'))
unfolding value find_level get_head getpos key_le keycmp longcmp bval getfill pair key_num
cbtree_lookup-cbtree_insert_example =
    cbtree_lookup-cbtree_insert geo4-IsGeo (ptr 1 0) (single-HoldsKey 25 (omega arith)) refl 0 0 env
      125 (single-IsCbtree 25) (λ e. omega arith) refl (λ e. omega arith) (omega arith)

cbtree_lookup-cbtree_remove_example :
    (cbtree_lookup 0 geo4 (ptr 1 0) (with_key 30) ≡ ok 11 (with_key 30))
    × ((v : ℕ) × (s' : State) × (cbtree_remove 1 geo4 (ptr 1 0) (with_key 30) ≡ ok v s')
        × (cbtree_lookup 0 geo4 (ptr 1 0) s' ≡ ok null s'))
unfolding value bval pair key_num
cbtree_lookup-cbtree_remove_example =
    cbtree_lookup-cbtree_remove geo4-IsGeo (ptr 1 0) (single-HoldsKey 30 (omega arith)) refl 0 0
      (single-IsCbtree 30) (omega arith) (λ e. omega arith) refl (omega arith)

root_keys :
    (i : ℕ)
    → i < 4
    → bval geo4 (memory.word 10) i ≢ null
    → (1 ≤ key_num geo4 (memory.word 10) i) × Unit {0}
unfolding bval key_num value
root_keys i p =
    below_four
      (λ i. bval geo4 (memory.word 10) i ≢ null → (1 ≤ key_num geo4 (memory.word 10) i) × Unit {0})
      (λ u. (omega arith, tt)) (λ u. (omega arith, tt)) (λ u. absurd (u refl))
      (λ u. absurd (u refl)) i p

memory-IsKeyed : IsKeyed geo4 memory 1 1 four nodes
memory-IsKeyed = record { shape = memory-IsCbtree; keys = root_keys }

cbtree_get_prev-before_example :
    (r : Option (ℕ × Words)) × (cbtree_get_prev 2 geo4 (ptr 1 0) memory ≡ ok r memory)
    × (as_entry geo4 r ≡ before (value (key_at memory (ptr 1 0)) 1) four)
cbtree_get_prev-before_example =
    cbtree_get_prev-before geo4-IsGeo memory-IsKeyed key-HoldsKey 2 (omega arith)

-- The same with the parent key 0 over the leaf 12, and the caller's key 5.
abbrev zero_parent : State
zero_parent = record memory {
  word = λ a.
      row (if a == 10 then 20 ∷ 0 ∷ 0 ∷ 0 ∷ 11 ∷ 12 ∷ [] else if a == 1 then 5 ∷ [] else words a);
}

zero_parent-Holds :
    (a : Addr) → 10 ≤ a → a ≤ 12 → IsNode geo4 (zero_parent.word a) 2 → Holds geo4 zero_parent a 2
zero_parent-Holds a low high node = record {
  ne_null = λ e. omega arith;
  live = ground arith;
  node = node;
  some_pair = omega arith;
}

zero_parent-IsCbtree : IsCbtree geo4 zero_parent 1 four nodes
unfolding bval pair key_num value
zero_parent-IsCbtree = record {
  height = refl;
  tree =
      inner
        (zero_parent-Holds 10 (omega arith) (omega arith) (
          pairs-IsNode 20 0 11 12 (omega arith) (omega arith) (λ e. omega arith)
            (λ e. omega arith)))
        refl
        (cons (leaf (zero_parent-Holds 11 (omega arith) (omega arith) left-Holds.node))
          (cons (leaf (zero_parent-Holds 12 (omega arith) (omega arith) right-Holds.node)) nil
            (λ a h. refl) (omega arith) tt)
          (λ a h. ground arith) (omega arith) (omega arith));
}

cbtree_get_prev-wraps_example :
    (e : ℕ × Words) × (rest : List (ℕ × ℕ)) × (cbtree_get_prev 6 geo4 (ptr 1 0) zero_parent
      ≡ ok (some e) zero_parent)
    × (four ≡ (value e.1 1, e.0) ∷ rest)
unfolding key_num value getfill
cbtree_get_prev-wraps_example =
    cbtree_get_prev-wraps geo4-IsGeo zero_parent-IsCbtree (λ i p u. (omega arith, tt)) refl
      (record {
        ne_null = λ e. omega arith;
        live = omega arith;
        words = λ i p. ground (arith, row-IsWords (5 ∷ []) 1 (omega arith) i p);
      })
      (λ e. omega arith) refl 6 (omega arith)

cbtree_update-update_value_example :
    (s' : State) × (cbtree_update 0 geo4 (ptr 1 0) 999 (with_key 20) ≡ ok success s')
    × IsLeaf geo4 s' 2
    × (entries geo4 (s'.word s'.head.node) 2 ≡ update_value (caller 20) 999 leaf_entries)
    × SameOutside (11 ∷ []) (with_key 20) s'
unfolding value bval pair key_num
cbtree_update-update_value_example =
    cbtree_update-update_value geo4-IsGeo (single-IsLeaf 20) (single-HoldsKey 20 (omega arith)) 0
      999 (λ e. omega arith) refl (λ e. omega arith)

cbtree_visitor-cbtree_insert_example :
    (s' : State) × (before after : List Visit) × (cbtree_visitor 0 geo4 true memory
      ≡ ok (4, before) memory)
    × (cbtree_insert 2 env geo4 (ptr 1 0) 107 memory ≡ ok success s')
    × (cbtree_visitor 0 geo4 true s' ≡ ok (5, after) s')
    × (map (view geo4) before ≡ number 0 four)
    × (map (view geo4) after ≡ number 0 (insert (value (key_at memory (ptr 1 0)) 1) 107 four))
unfolding value find_level get_head getpos key_le keycmp longcmp bval getfill
cbtree_visitor-cbtree_insert_example =
    cbtree_visitor-cbtree_insert geo4-IsGeo 0 0 env (ptr 1 0) 107 memory-IsCbtree key-HoldsKey refl
      refl (λ e. omega arith) (omega arith)

cbtree_get_prev-cbtree_insert_example :
    (s' : State) × (r : Option (ℕ × Words)) × (cbtree_insert 2 env geo4 (ptr 1 0) 107 memory
      ≡ ok success s')
    × (cbtree_get_prev 2 geo4 (ptr 1 0) s' ≡ ok r s')
    × (as_entry geo4 r ≡ before (value (key_at memory (ptr 1 0)) 1) four)
    × IsKeyed geo4 s' 1 1 (insert (value (key_at memory (ptr 1 0)) 1) 107 four) nodes
unfolding value find_level get_head getpos key_le keycmp longcmp bval getfill
cbtree_get_prev-cbtree_insert_example =
    cbtree_get_prev-cbtree_insert geo4-IsGeo memory-IsKeyed key-HoldsKey (λ e. omega arith) refl
      refl (omega arith) env 107 0 2 (λ e. omega arith) (omega arith)
